-- ===== src/Lib.antt =====
-- Verification library of the event operations backend: the scanning of entry codes, online and
-- offline, the codes themselves, the sessions of staff, the visitors that devices are sent, and the
-- requests for tickets by WhatsApp.
--
-- A visitor holds a QR code. A device reads it and sends a scan. The scan service reads the code,
-- finds the stored token and its registration, checks the event, the device, the staff session and
-- the checkpoint, decides, and writes a scan and a movement. Codes are signed with a secret of the
-- server, or, for registrations made without a connection, with a key of the device that issued them.
-- Scans of such codes wait as offline operations until the registration has been synced. A member of
-- staff opens a session on a device before scanning; a device reads the journal of visitors page by
-- page to work without a connection; a visitor asks for the ticket with a message that carries a
-- token, which binds the request to the sender's phone.
--
-- Files:
--   Base          numbers, lists, texts, results, JSON, and Exec, the monad of a state and an exception;
--                 Exec.transaction stands for `$transaction`, Exec.try_catch for try and catch;
--                 Queries has `findFirst` under an order, Decimal the decimal text of a number
--   Runtime       what the code takes from Node: HMAC, base64url, UTF-8, JSON, hashes, dates, Ed25519
--   Store         prisma/schema.prisma: the rows, as lists in one record Db
--   Qr            src/common/utils/qr-signing.util.ts; Qr/Laws states what is relied on in Runtime,
--                 Qr/Compact and Qr/Signed prove, Qr/Toy is a concrete Runtime for Qr/Tests
--   Offline       src/modules/offline/offline-qr.service.ts: verifySignedOfflineQr and the checks of a
--                 key; Offline/Payload has the formats and the hash of a payload,
--                 Offline/Keys provisionDevicePublicKey and getTrustBundle; Trust, Rotation and Compact prove
--   Scans         src/modules/scans/scans.service.ts, in the order of a request:
--     Checks      ensureActive..., getCheckpointAccessDenial, getReentryDenial, toScanDenialReason
--     Context     validateQrForScan and the two readings of offline codes
--     Records     createInvalidScan, createProcessedScanAndMovement, update..., createPending...
--     Ingest      ingest, ingestFast
--     Process     processRawScan, the job of the scan queue
--     Offline     getCanonicalContextForOfflineScan, processOfflineScanOperation
--     Reconcile   ingestOfflineScan, reconcileOfflineRegistration
--     Keeps, SingleEntry, Admission, Replay, Progress, Settlement: the proofs; Sample, Tests: examples
--   Sync          src/modules/sync/sync.service.ts, the batches that a device uploads:
--     Rows        batches, operations, the DTO, and Services, what a batch calls in other modules
--     Payload     getString..., classifySyncOperationError, canRetryFailedOfflineOperation
--     Identity, Register   runOfflineRegistration; Sort sortOperations; Operation processOperation
--     Batch       submitBatch, processBatch; Recover recoverFailedOfflineRegistrations
--     Sort/Buckets, Batch/Answers, Submit, Again, Repeat, Recover/Accounts: the proofs; Tests: examples
--   Location      src/common/utils/location-cascade.util.ts: collectZoneSubtree; Subtree, Levels prove
--   Pagination    src/common/utils/pagination.util.ts
--   Sessions      src/modules/staff-sessions/staff-sessions.service.ts: Guards has the checks of `start`
--                 and `startMySession`, Start the operations; Single, Histories, Admitted, Again and
--                 Repeat prove, Tests has examples
--   Visitors      src/modules/visitors/visitors.service.ts: Changes has findChangesForStaff, its cursor and
--                 its pages; Latest, Pages, Answers and CatchUp prove; Tests has examples
--   Clients       src/modules/clients/client-lifecycle.service.ts: both operations; Deletion proves, Tests has
--                 examples
--   Whatsapp      src/modules/whatsapp-ticket-requests/whatsapp-ticket-requests.service.ts:
--     Texts, Message   normalizePhone, the two patterns, extractIncomingMessage, validateWebhookSecret
--     Rows        the rows, recordDelivery, markDelivery; Services what is configured, and the checks
--     Claims      claimTicketRequestSender; Requests handleWasenderWebhook; Issue createForRegistration
--     Bound, Race, Keeps, Warrant, Recipients, Duplicates, Sends, Links: the proofs; Tests: examples
--
-- How the code is modelled: a method is a function of the database that gives its answer or its
-- exception and the database it leaves; a failed `$transaction` leaves the database as it was.
-- Requests run one after the other, but for the claim of a ticket request, which takes what other calls
-- do between its query and its update as an argument. One request reads
-- the clock once, and the time, the secret and the queue's state are fields of Env. Keys of rows that
-- scanning creates are numbers from a counter; all other keys are texts. A row that a foreign key
-- promises is looked up, and its absence is a missing token. A Prisma condition with the value
-- `undefined` inside an OR is a parameter of the model. The order of keys in stableStringify is by code
-- point, lengths of texts count characters, and numbers in JSON are exact.
--
-- A batch runs its operations on the database of the scan service, so Sync composes the definitions of
-- Scans and Offline; Services holds RegistrationsService.create, QrService.generate, the ids of new
-- rows, toUpperCase, and the response that Nest gives for an exception. The map of local registrations
-- is a field that every batch empties.
--
-- Recursion is structural, but for the loop of collectZoneSubtree, which runs on fuel: one round more
-- than there are root ids and zones. Each round but the last visits an id that was not visited and
-- that is a root or a zone, so the fuel is never used up. A device that catches up with the journal asks
-- on fuel; one answer more than rows are pending is enough, since each answer but the last moves the
-- cursor past a row. The five attempts to store a token are counted down.
--
-- Sessions: the id of a new session is an argument, drawn by Prisma in the source; the event and the
-- device are checked as the scan service does it. Visitors: the signing secret and the page size's
-- default are the code's; compact tokens are those of Qr. Whatsapp: resolveUsableForRegistration and
-- sendRegistrationTicketImage are functions that a call is given, and the calls of the latter are kept in
-- a list; the random bytes of a token are an argument, and so are toLowerCase, URL, encodeURIComponent
-- and the Arabic texts of a message. A conflict of the update of a token is always one of the token.
--
-- README.md and the test beside the service say that a WhatsApp message carries no token and that its
-- sender must have the registered phone. The code puts the token into the message, asks for it, and binds
-- the first sender in place of the registered phone; the model follows the code.
--
-- Three errors of the database are simpler than in the source: the creation of a raw scan checks no
-- foreign key, the update of an offline scan no unique movement and scan, and a SCAN_EVENT operation
-- whose movement type or date is none is refused before `ingest` and not at the creation of its row.
--
-- Not modelled: the read-only lists of scans, movements and sessions, the snapshot and the search of
-- visitors, the display part of formatScanResponse, audit log rows, the logs of errors, and the other
-- modules of the backend: registrations and their fields, imports, notifications, the issue of codes,
-- storage cleanup, the rest of clients, events and places, tickets and badges, authentication, dashboards and
-- reports. The parts modelled here meet them through rows of the database and the functions above.
-- Controllers, queues, configuration and scripts are glue to the framework.
pub mod Base
pub mod Runtime
pub mod Store
pub mod Qr
pub mod Offline
pub mod Scans
pub mod Clients
pub mod Pagination
pub mod Sync
pub mod Location
pub mod Sessions
pub mod Visitors
pub mod Whatsapp
