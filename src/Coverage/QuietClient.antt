-- ===== src/Coverage/QuietClient.antt =====
-- Invariants of the history over the retrieval of scripts/run_a1_coverage.py.
use atlasmirror.Prelude.{ℕ, zero, suc, Text, Bool, true, false}
use atlasmirror.Host.{Host, manifest_event, download_event, FilePath, History}
use atlasmirror.Host.Keeps.{
  Keeps, IsQuiet, Keeps-pure, Keeps-bind, Keeps-if, Keeps-on_option, ◌▸◌, keeps_rules,
}
use atlasmirror.Coverage.Quiet.{
  run_ssh-Keeps, get_vps_spr-Keeps, size_now-Keeps, remove_if_there-Keeps,
}
use atlasmirror.Coverage.Retrieve.{
  wait_daemon, start_client, start_storage, event_seen, poll_event, watch_events, fetch_manifest,
  progress, look, wait_file, download_file, is_complete, retrieve,
}

module _ (host : Host) {P : History → Type 0} (q : IsQuiet P) where
  wait_daemon-Keeps : (n : ℕ) → Keeps P (wait_daemon host n)
  unfolding wait_daemon
  wait_daemon-Keeps zero = search keeps_rules
  wait_daemon-Keeps (suc n) =
      Keeps-bind _ _ (search keeps_rules)
        λ there. Keeps-if there _ _ (Keeps-pure true) (search keeps_rules ▸ wait_daemon-Keeps n)

  start_client-Keeps : (node : Text) → Keeps P (start_client host node)
  unfolding start_client
  start_client-Keeps node =
      search keeps_rules
      ▸ search keeps_rules
      ▸ Keeps-bind _ _ (search keeps_rules) λ there.
        search keeps_rules
        ▸ search keeps_rules
        ▸ search keeps_rules
        ▸ search keeps_rules
        ▸ search keeps_rules
        ▸ wait_daemon-Keeps 20

  start_storage-Keeps : Keeps P (start_storage host)
  unfolding start_storage
  start_storage-Keeps =
      search keeps_rules
      ▸ search keeps_rules
      ▸ search keeps_rules
      ▸ search keeps_rules
      ▸ search keeps_rules

  event_seen-Keeps : (size : ℕ) → Keeps P (event_seen host size)
  unfolding event_seen
  event_seen-Keeps zero = search keeps_rules
  event_seen-Keeps (suc size) = search keeps_rules

  poll_event-Keeps : (n : ℕ) → Keeps P (poll_event host n)
  unfolding poll_event
  poll_event-Keeps zero = search keeps_rules
  poll_event-Keeps (suc n) = Keeps-bind _ _ (size_now-Keeps host q manifest_event) λ size.
      Keeps-bind _ _ (event_seen-Keeps size)
        λ seen. Keeps-if seen _ _ (Keeps-pure true) (search keeps_rules ▸ poll_event-Keeps n)

  watch_events-Keeps : (path : FilePath) → Keeps P (watch_events host path)
  unfolding watch_events
  watch_events-Keeps path =
      remove_if_there-Keeps host q path
      ▸ search keeps_rules
      ▸ search keeps_rules
      ▸ search keeps_rules

  fetch_manifest-Keeps : (n : ℕ) (cid : Text) → Keeps P (fetch_manifest host n cid)
  unfolding fetch_manifest
  fetch_manifest-Keeps zero cid = search keeps_rules
  fetch_manifest-Keeps (suc n) cid =
      watch_events-Keeps manifest_event
      ▸ search keeps_rules
      ▸ Keeps-bind _ _ (poll_event-Keeps 45) λ seen.
        search keeps_rules
        ▸ search keeps_rules
        ▸ Keeps-if seen _ _ (Keeps-pure true) (search keeps_rules ▸ fetch_manifest-Keeps n cid)

  progress-Keeps : (size last_size last_time : ℕ) → Keeps P (progress host size last_size last_time)
  unfolding progress
  progress-Keeps size last_size last_time = search keeps_rules depth 8

  look-Keeps : (f_size last_size last_time : ℕ) → Keeps P (look host f_size last_size last_time)
  unfolding look
  look-Keeps f_size last_size last_time = Keeps-bind _ _ (search keeps_rules) λ there.
      Keeps-if _ _ _ (Keeps-pure _) (
        Keeps-bind _ _ (size_now-Keeps host q _) λ size.
          Keeps-if _ _ _ (Keeps-pure _)
            (Keeps-bind _ _ (progress-Keeps size last_size last_time) λ p. Keeps-pure _))

  wait_file-Keeps :
      (n f_size last_size last_time : ℕ) → Keeps P (wait_file host n f_size last_size last_time)
  unfolding wait_file
  wait_file-Keeps zero f_size last_size last_time = search keeps_rules
  wait_file-Keeps (suc n) f_size last_size last_time =
      Keeps-bind _ _ (look-Keeps f_size last_size last_time) λ (p, complete).
        Keeps-on_option p _ _ (Keeps-pure complete)
          (λ (size, time). search keeps_rules ▸ wait_file-Keeps n f_size size time)

  download_file-Keeps :
      (cid : Text) (f_size : ℕ) (success : Bool) → Keeps P (download_file host cid f_size success)
  unfolding download_file
  download_file-Keeps cid f_size success =
      watch_events-Keeps download_event
      ▸ search keeps_rules
      ▸ Keeps-bind _ _ (search keeps_rules) λ now.
        Keeps-bind _ _ (wait_file-Keeps _ f_size 0 now) λ complete.
          search keeps_rules
          ▸ search keeps_rules
          ▸ search keeps_rules
          ▸ search keeps_rules
          ▸ Keeps-pure _

  is_complete-Keeps : (success : Bool) (f_size : ℕ) → Keeps P (is_complete host success f_size)
  unfolding is_complete
  is_complete-Keeps false f_size = search keeps_rules
  is_complete-Keeps true f_size = Keeps-bind _ _ (search keeps_rules) λ there.
      Keeps-if _ _ _ (Keeps-pure false)
        (Keeps-bind _ _ (size_now-Keeps host q _) λ size. Keeps-pure _)

  pub retrieve-Keeps :
      (n : ℕ) (cid : Text) (f_size : ℕ) (success : Bool)
      → Keeps P (retrieve host n cid f_size success)
  unfolding retrieve
  retrieve-Keeps zero cid f_size success = search keeps_rules
  retrieve-Keeps (suc n) cid f_size success = Keeps-bind _ _ (get_vps_spr-Keeps host q) λ node.
      Keeps-bind _ _ (start_client-Keeps node) λ ready.
        Keeps-if _ _ _ (retrieve-Keeps n cid f_size success) (
          start_storage-Keeps
          ▸ Keeps-bind _ _ (fetch_manifest-Keeps 5 cid) λ fetched.
            Keeps-if _ _ _
              (Keeps-bind _ _ (download_file-Keeps cid f_size success) λ success'.
                Keeps-bind _ _ (is_complete-Keeps success' f_size)
                  λ complete. Keeps-if _ _ _ (Keeps-pure tt) (retrieve-Keeps n cid f_size success'))
              (run_ssh-Keeps host q true _
                ▸ search keeps_rules
                ▸ retrieve-Keeps n cid f_size success))
