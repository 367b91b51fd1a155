-- ===== src/Lib.antt =====
-- A model of the server of azan-dashboard, with theorems about it. The server fetches the prayer
-- times of a year, shows the day's times with their iqamah times on a dashboard, and plays an
-- announcement at each event (before and at adhan and iqamah) on the outputs that are configured.
--
-- Parts, with paths from the repository's root (the other files leave out the leading src/):
-- - Iqamah: src/utils/calculations.js. calculate_iqamah and calculate_next_prayer are
--   calculateIqamah and calculateNextPrayer. Text has the text operations they use.
-- - DayRows: applyOverrides and buildPrayerRows of src/services/core/prayerTimeService.js.
-- - PrayerTimes: getPrayerTimes, readCache, writeCache and forceRefresh of the same file. Store is
--   `inMemoryCache` with the cache file; each operation takes a store and returns the next one with
--   a result, where an exception is an `err`.
-- - Settings: the shapes that src/config/schemas.js lets through, and the two loops over a trigger's
--   targets, getMaxLeadTime of schedulerService.js and _getActiveTargets of automationService.js.
-- - Scheduler: src/services/core/schedulerService.js. Table holds `jobs` and what node-schedule has
--   live; initScheduler is cut at its `await` into init_begin and init_finish, so that overlapping
--   runs are sequences of the two halves.
-- - Automation: src/services/core/automationService.js. trigger_event gives the launches of the
--   output strategies, each with its wait and the time after which it is aborted.
-- - Dashboard: getPrayersWithNext, getPrayerCalendarWindow and getDirectionalWindowStart of
--   src/services/core/prayerTimeService.js, on top of PrayerTimes, DayRows and Iqamah.
-- - Lock: src/utils/asyncLock.js, which getPrayerTimes runs under, as steps on its pending map.
-- - Sse: src/services/system/sseService.js, the clients of the event stream and the log history.
-- - Json: JSON values and _mergeDeep of src/config/ConfigService.js.
-- - Registry: src/outputs/OutputFactory.js and src/providers/ProviderFactory.js.
-- - Store: the rest of src/config/ConfigService.js. Overrides, Cleaning, Constraints and Saving are
--   its private steps, Loading what reload and update compute, and Service the operations on its
--   state, where each save meets its own Fault. EnvSecrets is migrateEnvSecrets of
--   src/services/system/migrationService.js.
-- - Migration: migrateConfig and its steps, src/services/system/migrationService.js.
-- - Secrets: how sensitive values are saved, loaded and unmasked, from _processSensitiveFields of
--   src/config/ConfigService.js, src/utils/configUnmasker.js and src/utils/encryption.js.
-- - Sources: normalizeSource of src/utils/normalizeSource.js and isWithinRoot of
--   src/utils/pathUtils.js, over node's path module as the record Paths.
-- - Assets: src/services/system/audioAssetService.js, src/services/system/assetMigrationService.js and
--   src/utils/audioValidator.js. A Shelf is a directory of audio files with the one of its sidecars;
--   each call of the speech service happens in a World.
-- - Controllers: Masking is _maskSecrets and getPublicSettings of
--   src/controllers/settingsController.js with src/utils/configUnmasker.js, Listing the list of audio
--   files of src/controllers/systemController.js with its cache, Files uploadFile and deleteFile of
--   src/controllers/settingsController.js; Files/Coherence has the requests as Operation. Accounts is
--   src/controllers/authController.js with src/utils/passwordUtils.js.
-- - Diagnostics: getTTSStatus of src/services/system/diagnosticsService.js, on the cache of Assets.
-- - Voices: refreshVoices of src/services/system/voiceService.js, one call after the other.
-- - Playback: execute of src/outputs/BaseOutput.js, on top of Sources.
-- - Update: executeUpdate of src/services/system/configurationWorkflowService.js and
--   validateConfigSource of src/services/core/validationService.js, as lists of steps.
-- - Health: init, checkSource, _refreshTarget and refresh of src/services/system/healthCheck.js.
-- - Access: src/middleware/auth.js and storageCheck.js, with the quota of
--   src/services/system/storageService.js.
-- - Maintenance: staleAction and boundaryAction of src/services/core/schedulerService.js.
--
-- How they meet: the scheduler asks PrayerTimes for the day, computes the iqamah as the dashboard
-- does, and makes a job for each event, earlier by the longest lead time; the job calls Automation,
-- which lets each output wait for what is left of that lead time.
--
-- Outside code is a parameter: luxon is the record Luxon of Clock/Interface, with its documented
-- behaviour as HasMinuteArithmetic and HasMillis; Clock/Utc is a clock that meets both. The provider
-- classes, the file system, node-schedule and the output strategies answer through the Env records;
-- what a request meets of the file system is Scan and Steps in Controllers, and Faults in Store.
-- node's cipher is the record Cipher of Secrets: both its operations may throw.
--
-- Loops over lists are structural recursion; no definition takes fuel. Numbers are exact: times and
-- counters stay far below the bound 2 ^ 53 of JavaScript's exact integers. Offsets, rounding
-- intervals and lead times are whole numbers, though the schema lets fractions through.
--
-- Not modelled: the routes and the other controllers, the provider and output classes, the probes
-- themselves, the speech microservice and the
-- client, which are input and output around the parts above. Log output to the console is left out.
pub mod Prelude
pub mod Dict
pub mod Result
pub mod Text
pub mod Clock
pub mod Prayer
pub mod Iqamah
pub mod DayRows
pub mod PrayerTimes
pub mod Settings
pub mod Scheduler
pub mod Automation
pub mod Dashboard
pub mod Lock
pub mod Sse
pub mod Json
pub mod Registry
pub mod Migration
pub mod Secrets
pub mod Store
pub mod Maintenance
pub mod Sources
pub mod Assets
pub mod Update
pub mod Controllers
pub mod Diagnostics
pub mod Voices
pub mod Playback
pub mod Health
pub mod Access
pub mod Samples
