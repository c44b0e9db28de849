-- ===== src/Examples/Logs.antt =====
-- The theorems about the history, the audit log, the account of src/state.rs, and
-- the socket of src/web/ws.rs, at work.
use mini_mask.Common.{
  ◌≡◌, ◌≢◌, refl, ◌⊎◌, [], ◌∷◌, none, true, false, text, ok, err, arith, last_n, text_discrete,
  ℕ_discrete,
}
use mini_mask.Util.{AnyError}
use mini_mask.Disk.{Disk}
use mini_mask.Disk.Paths.{with_extension}
use mini_mask.Disk.Replace.{tmp_name}
use mini_mask.Stats.{Stats}
use mini_mask.Stats.History.{Tick, record_ticks, sample_of, history-record_ticks}
use mini_mask.Stats.Sampler.{start_sampler}
use mini_mask.Stats.Watching.{ticks, ticks-has_subs}
use mini_mask.Broadcast.{WsBroadcaster}
use mini_mask.Web.Socket.{build_stats_message, frame, ping, heard, delivers, broadcasts, handle_ws}
use mini_mask.Web.Socket.Order.{IsShown, handle_ws-IsShown}
use mini_mask.Audit.{AuditLog, AuditLogFile, AuditLogStore}
use mini_mask.Audit.Ring.{add_all, logs-add_all}
use mini_mask.Auth.{AuthStore, change_password, verify, load_or_seed}
use mini_mask.Auth.Password.{IsSaved, load-change_password}
use mini_mask.Examples.Given.{
  started, plain_crates, plain_auth_json, plain-AuthLaws, plain_log_json,
}

abbrev idle : Stats
idle = record { bytes_out = 0; bytes_in = 0; total_conns = 0; active_conns = 0; history = [] }

abbrev second : Tick
second = record { active = 2; now = 5; rate_in = 10; rate_out = 20 }

record_ticks_example :
    (record_ticks (second ∷ []) idle).history ≡ last_n 120 (sample_of second ∷ [])
record_ticks_example = history-record_ticks (second ∷ []) idle (omega arith)

abbrev watched : WsBroadcaster
watched = record {
  clients = record { closed = true; queue = [] } ∷ record { closed = false; queue = [] } ∷ [];
}

ticks_example :
    (ticks (1 ∷ 2 ∷ 3 ∷ 4 ∷ 5 ∷ 6 ∷ []) (λ s. []) (start_sampler idle, idle, watched)).0.has_subs
    ≡ true
ticks_example =
    ticks-has_subs (1 ∷ 2 ∷ 3 ∷ 4 ∷ 5 ∷ 6 ∷ []) (λ s. []) (start_sampler idle, idle, watched)
      (omega arith) refl (unfold start_sampler in omega arith)

handle_ws_example :
    IsShown (build_stats_message (λ v. text "stats") started ∷ text "a" ∷ text "b" ∷ []) (
      handle_ws
        (λ v. text "stats")
        (text "a" ∷ [])
        true
        (delivers true ∷ broadcasts (text "b") ∷ heard (frame ping) ∷ delivers false ∷ [])
        started)
handle_ws_example =
    handle_ws-IsShown (λ v. text "stats") (text "a" ∷ []) true
      (delivers true ∷ broadcasts (text "b") ∷ heard (frame ping) ∷ delivers false ∷ []) started

abbrev entry : AuditLog
entry = record { ts = 1; level = []; category = []; message = b'e' ∷ b'n' ∷ [] }

abbrev small_log : AuditLogStore
small_log = record { logs = []; cap = 2; file = none }

abbrev no_files : Disk
no_files = record { files = []; faults = [] }

add_all_example :
    (add_all plain_log_json (entry ∷ entry ∷ entry ∷ []) small_log no_files).0.logs
    ≡ last_n 2 (entry ∷ entry ∷ entry ∷ [])
add_all_example =
    logs-add_all plain_log_json (entry ∷ entry ∷ entry ∷ []) small_log no_files (omega arith)
      (omega arith)

abbrev log_file : AuditLogFile
log_file = record { path = b'a' ∷ []; max_bytes = 4 }

abbrev account : AuthStore
account = record {
  inner = record { username = b'r' ∷ []; password_hash = b'o' ∷ [] };
  path = b'u' ∷ [];
}

abbrev account_disk : Disk
account_disk = record { files = (b'u' ∷ [], 1 ∷ b'r' ∷ b'o' ∷ []) ∷ []; faults = [] }

account-IsSaved : IsSaved plain_auth_json plain_crates account account_disk
unfolding plain_auth_json text_discrete ℕ_discrete
account-IsSaved = record { raw = 1 ∷ b'r' ∷ b'o' ∷ []; in_file = refl; reads_back = refl }

change_password_example :
    let (r, t, d) =
      change_password plain_auth_json plain_crates (b'n' ∷ []) [] account account_disk in
    ((r ≡ ok tt)
      × (verify plain_crates (b'n' ∷ []) t ≡ true)
      × (load_or_seed plain_auth_json plain_crates account.path [] [] [] d ≡ (ok t, d)))
    ⊎ ((e : AnyError) × (r ≡ err e)
        × (verify plain_crates (b'n' ∷ []) t ≡ true)
        × (load_or_seed plain_auth_json plain_crates account.path [] [] [] d ≡ (ok account, d)))
change_password_example =
    load-change_password plain_auth_json plain_crates plain-AuthLaws (b'n' ∷ []) [] (b'n' ∷ [])
      account account_disk [] [] [] (unfold plain_crates in refl) other account-IsSaved
  where
    other : account.path ≢ tmp_name account.path
    other = unfold with_extension text in λ h. cc
