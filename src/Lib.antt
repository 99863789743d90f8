-- ===== src/Lib.antt =====
-- AtlasMirror mirrors OpenStreetMap extracts of Geofabrik on Logos Storage and records each one
-- in an on-chain registry. Its Python scripts under scripts/ are what fills the registry and what
-- audits it, and this library models them.
--
-- The parts, and the files that model them:
--   Onchain          scripts/verify_a1_audit.py, fetch_onchain_records: the registry account's
--                    bytes read as a snapshot. Onchain/Utf8 is Python's strict UTF-8 decoding;
--                    Onchain/Borsh is the layout that osm-registry/registry_core writes, as an
--                    independent description of the input.
--   Audit            scripts/verify_a1_audit.py, main: the loop over the manifest's counting
--                    entries, the summary and the exit status.
--   Hashing          compute_hashes of scripts/run_a1_coverage.py and the audit's hash loop.
--   Manifest         evidence/a1-coverage-manifest.json, and save_manifest_and_docs of
--                    scripts/process_one_region.py.
--   Catalog          metadata/regions.json.
--   Runner           what the scripts read in the output of the registry runner.
--   Storage, Json    what they read in the JSON of the storage node and the client module.
--   Host             what the scripts ask of the world: ssh, local commands, files, the clock.
--                    Host/Keeps and Host/Triples are the rules for invariants of the history,
--                    Host/Costs those for the number of requests.
--   Region           scripts/process_one_region.py, process_region: Region/Fetch up to a CID on
--                    the VPS, Region/Retrieve the retrieval by an independent client,
--                    Region/Publish the registration and the records. Region/Updates is what a run
--                    may do to the manifest.
--   Coverage         scripts/run_a1_coverage.py, main: Coverage/Plan is REGIONS_PLAN, Coverage/Remote
--                    the calls that try again, Coverage/Stage the download up to a CID,
--                    Coverage/Retrieve the retrieval, Coverage/Register the registration and
--                    save_progress, Coverage/Run the whole; Coverage/Assertions the final checks.
--   Henan            scripts/verify_henan_e2e.py, main: Henan/Upload up to a CID, Henan/Download the
--                    copy by CID, Henan/Verify the registration, the query and the whole. The rest
--                    of Henan/ is about its history: Henan/Backed is what each log rests on.
--   Reboot           scripts/verify_reboot_survival.py, main: Reboot/Node the VPS before and after
--                    its reboot, Reboot/Client the retrieval, Reboot/Verify the whole. Reboot/Story
--                    is what a history tells of the service and the file.
--   Deploy           scripts/deploy_vps_storage.py, main: Deploy/Node the node and the upload,
--                    Deploy/Client the retrieval and the whole.
--   Packaging        scripts/package_app_lgx.py (Packaging/App) and scripts/package_sdk_lgx.py
--                    (Packaging/Sdk): what goes into a bundle, and its audit.
--   Wallet           scripts/deploy_and_register.py, main: the wallet's accounts, the deployment and
--                    a registration.
--   Scan             scripts/scan_candidates.py: the releases whose programs have known image IDs.
--   Steps            the steps that these share; Steps/Backing are the histories in which what is
--                    published rests on what happened before.
--   Compare          scripts/compare_audit.py and scripts/fix_15_hierarchy.py.
--   Prelude, Outcome, Strings, Dict
--                    shared helpers, Python's exceptions, str methods and dict.
--
-- The pipeline writes the manifest and the chain, and the audit reads both: they meet in the
-- types of Manifest and Onchain.
--
-- Conventions. Text is a list of Unicode code points, and bytes are numbers. A script is an action
-- over a history of requests and their answers, the latest first. A world answers each request
-- as it likes, given the history: it stands for the commands, the files and the clock, which are
-- not code of this repository, so what is proved holds for all of them. A Python exception ends an
-- action with an error unless the code catches it. Times are in milliseconds.
--
-- Bounds. Every loop of the scripts that waits has a count in the source, which is the number on
-- which the model recurs (40 looks at the event file, 9 requests of the manifest, 3 retrievals,
-- 3 registrations; 20 calls of ssh and 5 retrievals in the coverage run). The loops over a file's
-- chunks and over a text's bytes recur on the length of what is left, and each round takes a
-- byte at least.
--
-- Not modelled. What is printed; the text of docs/adoption.md beyond the record of what it shows;
-- hashlib, which is a parameter with the law that its documentation gives; the RPC call before the
-- decoder; the text of evidence/a1-coverage-summary.md; tarfile and the order of a bundle's
-- members; the other scripts, which are mostly sequences of shell commands. The registry program,
-- the command line and the SDK are in other languages.
pub mod Prelude
pub mod Outcome
pub mod Strings
pub mod Json
pub mod Dict
pub mod Hashing
pub mod Manifest
pub mod Catalog
pub mod Runner
pub mod Storage
pub mod Host
pub mod Region
pub mod Audit
pub mod Onchain
pub mod Coverage
pub mod Compare
pub mod Steps
pub mod Reboot
pub mod Henan
pub mod Deploy
pub mod Packaging
pub mod Wallet
pub mod Scan
