-- ===== src/Bus/Prune.antt =====
-- What `bus_prune` of src/nbs-bus/bus.c deletes.
use nbs_framework.Common.{
  ℕ, zero, suc, ◌+◌, ◌-◌, ◌≤◌, ◌<◌, ◌≡◌, refl, sym, ap, ◌∙◌, subst, ◌⊎◌, inl, inr, true, not, List,
  [], ◌∷◌, ◌++◌, map, arith, ltb, leb, ltb→lt, lt→ltb, leb→le, le→leb, Bool-cases, length, All,
}
use nbs_framework.Common.Outcome.{ok}
use nbs_framework.Common.Text.{str_eq}
use nbs_framework.Common.Decimal.{long_max}
use nbs_framework.Common.Sorting.{
  IsPermuted, IsPermuted-sym, IsOrdered, IsSorted-IsOrdered, IsQsort, keep-IsPermuted,
}
use mathlib.Core.Path.{ap₂}
use nbs_framework.Bus.{Bus, EventFile, remove_file, bus_max_events}
use nbs_framework.Bus.Queue.{IsEventFile}
use nbs_framework.Bus.Reach.{IsReachable, IsReachable-IsQueue}
use nbs_framework.Bus.Scan.{or_skip}
use nbs_framework.Bus.Upkeep.{PruneEntry, prune_le, prune_entry, prune_scan, prune_loop, bus_prune}
use nbs_framework.Bus.Sizes.{
  entry_of, size_sum, folder_size, folder_size-entry_of, size_sum-permuted, IsDistinct,
  IsDistinct-permuted, IsFolder-IsDistinct, drop_entry, drop_entry-remove_file, drop_entry-head,
}

-- The folder without the files of the entries.
unfoldable pub remove_entries : List PruneEntry → List EventFile → List EventFile
remove_entries [] files = files
remove_entries (e ∷ entries) files = remove_entries entries (remove_file e.filename files)

-- Nothing is deleted, or the folder is above the limit until the last deletion.
abbrev pub IsNeeded : ℕ → List PruneEntry → List PruneEntry → Type 0
IsNeeded max_bytes gone left =
    (gone ≡ [])
    ⊎ ((before : List PruneEntry) × (last : PruneEntry) × (gone ≡ before ++ last ∷ [])
        × (max_bytes < size_sum (last ∷ left)))

IsNeeded-cons :
    (max_bytes : ℕ) (e : PruneEntry) (gone left : List PruneEntry)
    → max_bytes < size_sum (e ∷ (gone ++ left))
    → IsNeeded max_bytes gone left
    → IsNeeded max_bytes (e ∷ gone) left
IsNeeded-cons max_bytes e gone left above (inl none_more) = inr (
  [],
  e,
  ap (◌∷◌ e) none_more,
  subst (λ g. max_bytes < size_sum (e ∷ (g ++ left))) none_more above,
)
IsNeeded-cons max_bytes e gone left above (inr (before, last, split, needed)) =
    inr (e ∷ before, last, ap (◌∷◌ e) split, needed)

-- The entries split where the loop stops.
record IsPruned (max_bytes : ℕ) (entries : List PruneEntry) (files : List EventFile)
    (result : List EventFile × ℕ × ℕ) (pruned : ℕ) : Type 0 where
  gone : List PruneEntry
  left : List PruneEntry
  split : entries ≡ gone ++ left
  computed : result ≡ (remove_entries gone files, size_sum left, pruned + length gone)
  small : size_sum left ≤ max_bytes
  kept : IsPermuted left (map entry_of (remove_entries gone files))
  needed : IsNeeded max_bytes gone left

IsPruned-stop :
    (max_bytes : ℕ) (entries : List PruneEntry) (files : List EventFile) (total pruned : ℕ)
    → total ≡ size_sum entries
    → total ≤ max_bytes
    → IsPermuted entries (map entry_of files)
    → IsPruned max_bytes entries files (files, total, pruned) pruned
unfolding remove_entries
IsPruned-stop max_bytes entries files total pruned sum below same =
    let count : pruned ≡ pruned + 0 = omega arith in
    record {
      gone = [];
      left = entries;
      split = refl;
      computed = ap₂ (λ t n. (files, t, n)) sum count;
      small = omega arith;
      kept = same;
      needed = inl refl;
    }

IsPruned-delete :
    (max_bytes : ℕ) (e : PruneEntry) (entries : List PruneEntry) (files : List EventFile)
    (result : List EventFile × ℕ × ℕ) (pruned : ℕ)
    → max_bytes < size_sum (e ∷ entries)
    → IsPruned max_bytes entries (remove_file e.filename files) result (pruned + 1)
    → IsPruned max_bytes (e ∷ entries) files result pruned
unfolding remove_entries
IsPruned-delete max_bytes e entries files result pruned above r =
    let count : pruned + 1 + length r.gone ≡ pruned + length (e ∷ r.gone) = omega arith in
    record {
      gone = e ∷ r.gone;
      left = r.left;
      split = ap (◌∷◌ e) r.split;
      computed =
          r.computed
          ∙ ap (λ n. (remove_entries r.gone (remove_file e.filename files), size_sum r.left, n))
              count;
      small = r.small;
      kept = r.kept;
      needed =
          IsNeeded-cons max_bytes e r.gone r.left
            (subst (λ l. max_bytes < size_sum (e ∷ l)) r.split above) r.needed;
    }

prune_loop-IsPruned :
    (max_bytes : ℕ) (entries : List PruneEntry) (files : List EventFile) (total pruned : ℕ)
    → total ≡ size_sum entries
    → IsDistinct entries
    → IsPermuted entries (map entry_of files)
    → IsPruned max_bytes entries files (prune_loop max_bytes entries files total pruned) pruned
unfolding prune_loop
prune_loop-IsPruned max_bytes [] files total pruned sum distinct same =
    IsPruned-stop max_bytes [] files total pruned sum (omega arith) same
prune_loop-IsPruned max_bytes (e ∷ entries) files total pruned sum distinct same =
    elim (Bool-cases (ltb max_bytes total)) [
      | inl above ↦
          let others : IsPermuted entries (map entry_of (remove_file e.filename files)) =
            rw (drop_entry-remove_file e.filename files) (
              subst (λ l. IsPermuted l (drop_entry e.filename (map entry_of files)))
                (drop_entry-head e entries distinct)
                (keep-IsPermuted (λ d. not (str_eq d.filename e.filename)) same)) in
          rw above (
            IsPruned-delete max_bytes e entries files _ pruned
              (omega (arith, ltb→lt max_bytes total above))
              (prune_loop-IsPruned max_bytes entries (remove_file e.filename files) (total - e.size)
                (pruned + 1) (omega arith) distinct.1 others))
      | inr below ↦ rw below (
          IsPruned-stop max_bytes (e ∷ entries) files total pruned sum (ground (arith, below)) same)
    ]

prune_scan-All :
    (room total : ℕ) (files : List EventFile)
    → length files ≤ room
    → total + folder_size files ≤ long_max
    → All IsEventFile files
    → prune_scan room total files ≡ ok (map entry_of files, total + folder_size files)
unfolding prune_scan prune_entry or_skip
prune_scan-All room total [] fits small h =
    let none_more : total ≡ total + 0 = omega arith in ap (λ n. ok ([], n)) none_more
prune_scan-All zero total (f ∷ files) fits small h = absurd (omega arith)
prune_scan-All (suc room) total (f ∷ files) fits small (e, h) =
    let one : leb (length f.content) long_max ≡ true = le→leb _ _ (omega arith) in
    let two : leb total (long_max - length f.content) ≡ true = le→leb _ _ (omega arith) in
    let sum : total + length f.content + folder_size files ≡ total + folder_size (f ∷ files) =
      omega arith in
    let here : PruneEntry = record {
      filename = f.name;
      timestamp_us = e.event.timestamp_us;
      size = length f.content;
    } in
    rw e.suffixed (
      rw e.stamped (
        rw (lt→ltb (length f.name) 256 (omega (arith, e.fits))) (
          rw one (
            rw two (
              rw
                (prune_scan-All room (total + length f.content) files (omega arith) (omega arith) h)
                (ap (λ n. ok (here ∷ map entry_of files, n)) sum))))))

-- The entry is not younger than the other.
abbrev pub IsOlder : PruneEntry → PruneEntry → Type 0
IsOlder e d = e.timestamp_us ≤ d.timestamp_us

prune_le-IsOlder : (e d : PruneEntry) → prune_le e d ≡ true → IsOlder e d
unfolding prune_le
prune_le-IsOlder e d h = leb→le e.timestamp_us d.timestamp_us h

-- On every queue that the commands lead to, with at most 256 processed files whose sizes add up to
-- a long long, a positive limit and a qsort that sorts, bus_prune succeeds: it deletes events from
-- the oldest on, as many as it counts, until the files left fit the limit, and none that it need
-- not delete.
pub IsReachable-bus_prune :
    (qsort : List PruneEntry → List PruneEntry) (bus : Bus) (max_bytes : ℕ)
    → IsQsort prune_le qsort
    → 0 < max_bytes
    → IsReachable bus
    → length bus.processed ≤ bus_max_events
    → folder_size bus.processed ≤ long_max
    → (gone : List PruneEntry) × (left : List PruneEntry) × IsPermuted
        (gone ++ left)
        (map entry_of bus.processed)
      × IsOrdered IsOlder (gone ++ left)
      × (bus_prune qsort bus max_bytes
          ≡ ok (record bus { processed = remove_entries gone bus.processed }, length gone))
      × (folder_size (remove_entries gone bus.processed) ≤ max_bytes)
      × IsNeeded max_bytes gone left
unfolding bus_prune remove_entries
IsReachable-bus_prune qsort bus max_bytes sorts positive r fits small =
    let q = IsReachable-IsQueue r in
    let entries = map entry_of bus.processed in
    let permuted = sorts.permuted entries in
    let distinct =
      IsDistinct-permuted (IsPermuted-sym permuted)
        (IsFolder-IsDistinct bus.processed q.processed_folder) in
    let sum : folder_size bus.processed ≡ size_sum (qsort entries) =
      folder_size-entry_of bus.processed ∙ sym (size_sum-permuted permuted) in
    let from_zero : 0 + folder_size bus.processed ≡ folder_size bus.processed = omega arith in
    let ordered =
      IsSorted-IsOrdered prune_le IsOlder prune_le-IsOlder (qsort entries) (sorts.sorted entries) in
    let scanned : prune_scan bus_max_events 0 bus.processed
        ≡ ok (entries, folder_size bus.processed) =
      prune_scan-All bus_max_events 0 bus.processed fits (omega arith) q.processed_events
      ∙ ap (λ n. ok (entries, n)) from_zero in
    elim (Bool-cases (leb (folder_size bus.processed) max_bytes)) [
      | inl below ↦ (
        [],
        qsort entries,
        permuted,
        ordered,
        rw (lt→ltb 0 max_bytes positive) (rw scanned (rw below refl)),
        leb→le (folder_size bus.processed) max_bytes below,
        inl refl,
      )
      | inr above ↦
          let p =
            prune_loop-IsPruned max_bytes (qsort entries) bus.processed (folder_size bus.processed)
              0 sum distinct permuted in
          let count : 0 + length p.gone ≡ length p.gone = omega arith in
          (
            p.gone,
            p.left,
            subst (λ l. IsPermuted l entries) p.split permuted,
            subst (IsOrdered IsOlder) p.split ordered,
            rw (lt→ltb 0 max_bytes positive)
                (rw scanned (rw above (rw p.computed (rw count refl)))),
            rw (folder_size-entry_of (remove_entries p.gone bus.processed))
                (rw (sym (size_sum-permuted p.kept)) p.small),
            p.needed,
          )
    ]
