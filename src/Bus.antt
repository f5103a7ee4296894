-- ===== src/Bus.antt =====
-- src/nbs-bus/bus.c: the event queue. Its directory is two lists of regular files, the pending events
-- and those under processed/, in the order in which readdir returns them; a file has a name and its bytes, none of them NUL.
pub mod Priority
pub mod Name
pub mod Content
pub mod Scan
pub mod Publish
pub mod Listing
pub mod Upkeep
pub mod Config
pub mod Files
pub mod Queue
pub mod Reach
pub mod Zero
pub mod Sizes
pub mod Prune
pub mod Dedup
pub mod Drain
use nbs_framework.Common.Sorting.{IsPermuted}
use nbs_framework.Common.{
  ℕ, zero, suc, ◌+◌, ◌-◌, ◌*◌, ◌/◌, ◌%◌, ◌^◌, ◌≤◌, ◌<◌, min, ◌≡◌, refl, sym, ap, ◌∙◌, subst, ◌≢◌,
  ◌↔◌, ◌⊎◌, inl, inr, Bool, true, false, not, ◌&&◌, ◌||◌, Option, none, some, List, [], ◌∷◌, ◌++◌,
  map, append-nil, append_assoc, arith, ltb, leb, ◌==◌, if◌then◌else◌, within, ltb→lt, lt→ltb,
  leb→le, le→leb, ==_iff, Bool-cases, Option-cases, length, get_or, take, drop, length-append,
  length-take, length-drop, take-append-drop, take-length, map-take, map-drop, length-map, All,
  All-append, All-append_left, All-append_right, All-map,
}
use nbs_framework.Common.Outcome.{Outcome, ok, fail, abort, ◌>>=◌, ◌>>◌, assert, require}
use nbs_framework.Common.Text.{
  Bytes, codes, IsByte, Lacks, is_digit, is_alnum, is_space, str_eq, str_eq_iff,
}

abbrev pub bus_max_handle : ℕ
bus_max_handle = 128

abbrev pub bus_max_type : ℕ
bus_max_type = 128

abbrev pub bus_max_events : ℕ
bus_max_events = 256

abbrev pub bus_max_filename : ℕ
bus_max_filename = 512

pub record EventFile : Type 0 where
  pub name : Bytes
  pub content : Bytes

pub record Bus : Type 0 where
  pub pending : List EventFile
  pub processed : List EventFile

-- `bus_event_t`
pub record Event : Type 0 where
  pub filename : Bytes
  pub source : Bytes
  pub type_name : Bytes
  pub priority : ℕ
  pub timestamp_us : ℕ

-- The file of a name, and the directory without it.
unfoldable pub find_file : Bytes → List EventFile → Option EventFile
find_file name [] = none
find_file name (f ∷ fs) = if str_eq f.name name then some f else find_file name fs

unfoldable pub remove_file : Bytes → List EventFile → List EventFile
remove_file name [] = []
remove_file name (f ∷ fs) =
    let rest = remove_file name fs in if str_eq f.name name then rest else f ∷ rest

-- The order in which `readdir` lists a directory after a `rename` into it: any order of the files that are in it.
pub record Directory : Type 0 where
  pub listed : List EventFile → List EventFile
  pub same_files : (fs : List EventFile) → IsPermuted (listed fs) fs

-- What `rename` leaves in the directory of its target: a file of that name is replaced.
unfoldable pub put_file : Directory → EventFile → List EventFile → List EventFile
unfolding remove_file
put_file dir f fs = dir.listed (remove_file f.name fs ++ f ∷ [])
