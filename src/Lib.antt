-- ===== src/Lib.antt =====
-- go-registrar keeps the objects of a domain name registrar (domains, hosts, contacts, and the
-- people who approve changes to them) and brings the registry to what was approved over EPP.
--
-- The parts and how they interact:
-- - An object (lib/domain.go, lib/host.go, lib/contact.go, lib/apiuser.go, lib/approverset.go) has a
--   current and a pending revision. A pending revision has a change request (lib/changerequest.go) with one approval per approver set
--   (lib/approval.go). An approval is decided by an OpenPGP signature of an approver of the set over
--   an attestation that holds the revision; lib/core.go VerifyCR compares what was signed with what
--   is stored. UpdateState of approvals, change requests and objects call one another, also through
--   the hook that runs when an approval is saved.
-- - provision/main.go compares the registry's answers (epp/response.go) with the current revisions
--   and sends the differences.
-- - client/client.go fetches objects from the server and does not trust it: GetVerifiedDomain and its
--   like follow the change request of a revision to signatures by trust anchors or by approvers that
--   are verified in the same way.
-- - epp/encoding.go frames messages, and epp/client/client.go runs the session in which they are
--   sent.
--
-- Which file models which part:
-- - Registrar/State, Registrar/Model: the states of lib/registrarobject.go and the rows of the
--   workflow. A state text is a constructor, and any other text is `other`.
-- - Registrar/Signature: GetGPGKeyBlock (lib/approver.go), PrepareGPGKeys (lib/approverset.go),
--   GetApprovalAttestation and CheckSignature (lib/approval.go). OpenPGP and JSON are the record
--   Crypto of arbitrary functions.
-- - Registrar/Verify: NullInt64ConfirmEqual and VerifyCR (lib/core.go).
-- - Registrar/Store: FindByID and Save (lib/dbcache.go) on the tables of the workflow. A list of
--   Booleans says which of the next operations fail, so a theorem about every list is a theorem
--   about every pattern of failures.
-- - Registrar/Approval, Registrar/Decide: CheckValidityOfApproverSet and UpdateState of approvals;
--   the operations on other objects that it calls are the records Objects and Hooks.
-- - Registrar/Request: UpdateState and UpdateApprovals of change requests, PostUpdate and AfterSave
--   of approvals. `hooks` ties the mutual calls on fuel; what is proved holds for any hooks, so
--   for every fuel.
-- - Registrar/Revision, Registrar/Lifecycle: Promote, Supersed and Decline of revisions (those of
--   approver sets in Revision/Reread) and UpdateState of domains, hosts and contacts, which differ in
--   a Kind; of API users in Lifecycle/ApiUsers and of approver sets in Lifecycle/ApproverSets.
--   Registrar/Cancel has Cancel of the revisions of domains, hosts and contacts.
--   VerifyCR is an argument, as are the pending approvals of a set and what becomes of each.
-- - Registrar/Compare: Compare and CompareExport of the exports of revisions, and the comparisons of
--   lists that they call; hosts (lib/hostrevision.go) in Compare and Compare/Hosts, with
--   GetExportVersion, domains in Compare/Domains, and contacts, API users, approvers and approver
--   sets in files of their names (Compare/Stored has Compare of the last two).
-- - Client/Trust: IsSignedBy (client/trust_anchor.go), VerifyChangeRequest and GetVerifiedApprover
--   (client/client.go); Client/Trust/Sets has VerifyApproverSet, and Client/Trust/Objects
--   GetVerifiedDomain, GetVerifiedContact, GetVerifiedHost and GetVerifiedApproverSet. They call one
--   another on fuel, and come to an end on as much fuel as the time of the newest approval, if what
--   the server gives for a time was approved before. What the server and the disk cache give is a
--   record of functions.
-- - Epp/Status, Epp/Response: the data of epp/epp.go and epp/response.go that the others read.
-- - Epp/Wire: WireSplit and EncodeEPP (epp/encoding.go) on lists of bytes with the arithmetic of
--   uint32, and the loop of EPPListener (epp/client/client.go) over a scanner that buffers 64 KiB, on
--   fuel: one round more than there are messages.
-- - Epp/Client: the handlers of the client's state machine and StartFSM over the rounds that are
--   given, with the event that each select takes and whether EPPSender has met an error.
-- - Epp/Server: the session of the EPP server (epp/server/server.go), over the messages that arrive:
--   HandleWaitingForClient, HandleWaitingForCommand and Handle.
-- - Provision/Diff: DiffHostList, DiffDomainStatuses, DiffHostStatuses and binStatus
--   (provision/main.go), DiffDomainDSData (lib/domain.go), DiffIPLists (lib/host.go).
-- - Provision/Expected: EPPMatchesExpected of domains (lib/domain.go) and of hosts
--   (lib/host.go).
-- - Provision/Update: the commands that DomainUpdate (provision/main.go) sends for an active domain,
--   with DomainUnlockForChange, and what the registry holds when it has carried them out.
-- - Registrar/Examples, Epp/Examples, Provision/Examples and Client/Examples apply the theorems to
--   concrete inputs.
--
-- Not modelled: pages, forms, HTTP and the command-line tools, the text of e-mails, XML
-- marshalling, the cache in front of the database, UpdateState of approvers (their saves run a hook
-- that updates approver sets), the contents of info responses, and provisioning of hosts and of
-- domains that are created, deleted or transferred.
pub mod Prelude
pub mod Registrar
pub mod Epp
pub mod Provision
pub mod Client
