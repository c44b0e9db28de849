-- ===== src/Audit/Ring.antt =====
-- The ring buffer of the audit log (src/state.rs) keeps the latest entries.
use mini_mask.Common.{
  ◌≤◌, ◌<◌, ◌≡◌, sym, ◌∙◌, ap, List, [], ◌∷◌, ◌++◌, length, last_n, last_n_short, length-last_n,
  last_n-append, last_n-push,
}
use mathlib.Core.List.{append-nil, append_assoc}
use mini_mask.Audit.{AuditLog, AuditLogStore, LogJson, push_log, add}
use mini_mask.Disk.{Disk}

unfoldable pub add_all : LogJson → List AuditLog → AuditLogStore → Disk → AuditLogStore × Disk
add_all json [] s d = (s, d)
add_all json (e ∷ es) s d = let (s', d') = add json e s d in add_all json es s' d'

-- However many entries are added, and whatever becomes of the file, the buffer holds the last `cap`
-- entries in the order in which they came; `cap` must be positive, and the buffer hold no more at
-- the start.
pub logs-add_all :
    (json : LogJson) (es : List AuditLog) (s : AuditLogStore) (d : Disk)
    → 0 < s.cap
    → length s.logs ≤ s.cap
    → (add_all json es s d).0.logs ≡ last_n s.cap (s.logs ++ es)
unfolding add_all add
logs-add_all json [] s d pos h =
    sym (ap (last_n s.cap) (append-nil s.logs) ∙ last_n_short s.cap s.logs h)
logs-add_all json (e ∷ es) s d pos h =
    let all = s.logs ++ e ∷ [] in
    let first : (push_log e s).logs ≡ last_n s.cap all = last_n-push s.cap e s.logs pos h in
    logs-add_all json es (push_log e s) (add json e s d).1 pos (rw first (length-last_n s.cap all))
    ∙ ap (λ (h : List AuditLog). last_n s.cap (h ++ es)) first
    ∙ last_n-append s.cap all es
    ∙ ap (last_n s.cap) (append_assoc s.logs (e ∷ []) es)
