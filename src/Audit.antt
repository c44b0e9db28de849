-- ===== src/Audit.antt =====
-- The audit log of src/state.rs: a ring buffer in memory, and a file that is rotated.
pub mod Ring
pub mod Rotation
use mini_mask.Common.{
  ℕ, ◌-◌, ◌*◌, ◌^◌, min, List, [], ◌∷◌, ◌++◌, Option, none, some, Bool, true, false, Text, text,
  length, drop, leb, if◌then◌else◌,
}
use mini_mask.Disk.{Disk, contents, rename, append_to}
use mini_mask.Disk.Paths.{with_extension}

pub record AuditLog : Type 0 where
  pub ts : ℕ
  pub level : Text
  pub category : Text
  pub message : Text

pub record AuditLogFile : Type 0 where
  pub path : Text
  pub max_bytes : ℕ

pub record AuditLogStore : Type 0 where
  pub logs : List AuditLog
  pub cap : ℕ
  pub file : Option AuditLogFile

-- `serde_json` on one entry; none is an error.
pub record LogJson : Type 0 where
  pub to_json : AuditLog → Option Text

unfoldable pub new_log : ℕ → AuditLogStore
new_log cap = record { logs = []; cap = cap; file = none }

-- `saturating_mul` on a `u64`.
unfoldable pub with_file : Text → ℕ → AuditLogStore → AuditLogStore
with_file path max_size_mb s = record s {
  file = some (record { path = path; max_bytes = min (max_size_mb * (1024 * 1024)) (2 ^ 64 - 1) });
}

-- The rotation that may come before a write; its outcome is ignored.
abbrev pub rotate : AuditLogFile → Disk → Disk
rotate file d = elim (contents d file.path) [
  | none ↦ d
  | some bytes ↦
      if leb file.max_bytes (length bytes)
      then (rename file.path (with_extension file.path (text "log.1")) d).1
      else d
]

-- `AuditLogFile::append`: true if it succeeded.
unfoldable pub append : LogJson → AuditLog → AuditLogFile → Disk → Bool × Disk
append json entry file d = elim (json.to_json entry) [
  | none ↦ (false, rotate file d)
  | some line ↦ append_to file.path (line ++ b'\n' ∷ []) (rotate file d)
]

abbrev pub push_log : AuditLog → AuditLogStore → AuditLogStore
push_log entry s = record s {
  logs = (if leb s.cap (length s.logs) then drop 1 s.logs else s.logs) ++ entry ∷ [];
}

-- A failure of the file is only traced.
unfoldable pub add : LogJson → AuditLog → AuditLogStore → Disk → AuditLogStore × Disk
add json entry s d =
    (push_log entry s, elim s.file [ none ↦ d | some file ↦ (append json entry file d).1 ])
