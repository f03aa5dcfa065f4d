-- ===== src/Lib.antt =====
-- The backend of ITC-Sharing, where students give books to each other and share documents: the parts
-- that decide who may do what, and what happens to the rows, as functions from the source.
--
-- Parts and files.
--   Books        src/modules/books (books.service.ts, books.scheduler.ts) and the moderator's calls of
--                modules/admin/admin.service.ts: listing a book, asking for it, accepting, declining,
--                cancelling, completing, and the hourly sweep. Books.Types has the rows and the
--                constraints of the migrations; Books.Requests (request, accept, decline),
--                Books.Handover (cancel, complete, expireStaleReservations) and Books.Listing (donate,
--                update, remove, setBookHidden, deleteBook) have one function per method. A method
--                whose reads and writes may be apart in time is in phases, as decline_checks and
--                decline_write. Books.Moves, Books.Consistency and its children, Books.Desk (histories)
--                and Books.Races (interleavings) have the proofs.
--   Auth         src/modules/auth/auth.service.ts and users/ban-lookup.service.ts. Auth.Sessions has
--                createRefreshToken, refresh in its three steps, assertWithinReuseGrace and logout;
--                Auth.Codes has issueEmailToken, redeemCode and the five flows on them; Auth.Accounts
--                has register, login and completeGoogleLogin. Proofs: Auth.Owners and Auth.Renewal
--                (families), Auth.Live (codes), Auth.Entry and Auth.Upkeep (each call), Auth.History
--                (histories), Auth.Redeem, Auth.Guessing, Auth.Flows, Auth.Replay, Auth.Logout,
--                Auth.SignIn, Auth.Typed.
--   RateLimit    src/common/rate-limit/upload-quota.service.ts: RateLimit.Quota has the Lua scripts
--                CONSUME and REFUND and the counters of the process. redis-throttler.storage.ts and the
--                loop of rate-limit.guard.ts: RateLimit.Throttle has the script INCREMENT. Proofs:
--                RateLimit.Scripts, RateLimit.Agreement, RateLimit.Ceiling, RateLimit.Pruning (budget),
--                RateLimit.Counter, RateLimit.Window (requests).
--   Users        src/modules/users (users.service.ts, utils/promotion.ts) and documents/utils/
--                year-levels.ts: Users.Promotion has the rollover rule and its application on a visit,
--                Users.Handles the Telegram contact of updateMe. Proofs: Users.Rollover,
--                Users.Selection.
--   Documents    src/modules/documents/documents.service.ts: Documents.Audience has canView,
--                applyVisibility (the SQL condition as a test on a row), visibleFiles and
--                resolveAudience. documents/utils/file-signature.ts: Documents.Signature. Proofs:
--                Documents.Feed, Documents.Resolve, Documents.Content.
--   Uploads      the writes of documents.service.ts and the reviews of admin.service.ts, on the rows of
--                Uploads.Types: Uploads.Names (buildKey, resolveTitle), Uploads.Staging (stageFile,
--                deleteStagedFile, purgeStaleStaged, vetFile, reserveQuota), Uploads.Posting
--                (uploadMany, uploadFile, claimStagedFiles, addFiles), Uploads.Editing (update),
--                Uploads.Owning (delete, removeFile, setFileHidden, setHidden, setPinned,
--                signFileAccess), Uploads.Review (approve and reject, of uploads and files,
--                deleteDocument), Uploads.Pending (getPendingDocuments, flattenUpload),
--                Uploads.Browsing (findAll, findOne, with the type, the academic year and the search
--                of a query as one test of the row). Uploads.Calls has the histories. The budget is the
--                interface Quota, which Uploads.Budget fills with the counters of RateLimit.Quota.
--                Proofs: Uploads.Charging (budget), Uploads.Clearance and Uploads.Calm (what a call
--                clears), Uploads.Found (queries), Uploads.Feed (lists), Uploads.Publishing
--                (histories), Uploads.Authority (callers), Uploads.Signing (links), Uploads.Queue
--                (reviews).
--   Moderation   src/modules/admin/moderation.service.ts: Moderation.Reviewers. setUserRole, banUser,
--                unbanUser and setUserPlacement of admin.service.ts: Moderation.Accounts, with their
--                histories. Proofs: Moderation.Scope, Moderation.Standing.
--   Storage      src/modules/storage/storage-ref.util.ts and storage.service.ts: Storage.Refs has
--                parseRef, isSafeKeySegment, publicUrl, extractKey, upload and remove. Proofs:
--                Storage.RoundTrip, Storage.Removal.
--   Telegram     src/modules/telegram/telegram.service.ts: Telegram.Linking has createLinkToken, redeem,
--                unlink and notifyUser with forgetIfUnreachable. Proofs: Telegram.Asked,
--                Telegram.Once.
--   Notifications  src/modules/notifications/notifications.service.ts: Notifications.Delivery has the row of
--                create, createForReviewers and markAllRead. Proofs: Notifications.Reviewing.
--   Base         what the parts share: tests on numbers, lists, rows (TypeORM), effects, text.
--
-- How the code is read. A table is the list of its rows. A handler is a function of the state that ends
-- with a result or with an exception of Nest (Base.Effect); a write made before an exception stays,
-- unless the handler is a transaction. Numbers are natural numbers: identifiers (UUIDs in the code),
-- times in milliseconds, and bytes; none of the modelled code comes near 2^53. A handler reads the clock
-- once, where the code may read it several times within a call. Fuel is used nowhere: all loops are over
-- lists.
--
-- Parameters. Orm (Base.Rows) is TypeORM on PostgreSQL: its statements and what is documented of them;
-- which of several matching rows findOne takes is left open. Platform (Auth.Types) is bcrypt, SHA-256,
-- the JWT service and the case mappings, with the laws that a password matches its own hash and that a
-- token verifies for the user it was signed for. What is drawn at random is an argument (Draw). Redis
-- (RateLimit.Redis) is the store that replicas share: its commands and the laws of its documentation.
-- Each has an instance on which the examples run: Samples, Auth.Tests, RateLimit.Store.
--
-- Not modelled: the controllers, guards and DTO decorators of Nest, configuration, logging, alerts, mail
-- clients, signed links, the migrations but for the constraints that the handlers rely on, and the
-- texts, the order, the pages and the shapes of responses. The answers of the scanner, of image and office conversion, of the S3
-- client and of the database on a new file are fields of the file in a call (Incoming), so that each may
-- fail. And so far: the review of subjects, the lists of notifications, the reading of Telegram messages,
-- the rest of the profile, and the in-process request counter of @nestjs/throttler.
pub mod Base
pub mod Samples
pub mod Storage
pub mod Telegram
pub mod Notifications
pub mod Auth
pub mod Books
pub mod Documents
pub mod RateLimit
pub mod Moderation
pub mod Uploads
pub mod Users
