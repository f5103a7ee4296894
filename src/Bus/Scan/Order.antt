-- ===== src/Bus/Scan/Order.antt =====
-- The listing of src/nbs-bus/bus.c when the folder has one file more, or its files in another order.
use nbs_framework.Common.{◌≡◌, refl, ap, subst, ◌∙◌, Option, none, some, List, [], ◌∷◌, ◌++◌}
use nbs_framework.Common.Sorting.{IsPermuted, nil, cons, swap, trans, IsPermuted-refl}
use nbs_framework.Common.Outcome.{ok, ◌>>=◌, bind-eq-ok, ok_inj}
use nbs_framework.Bus.{EventFile, Event}
use nbs_framework.Bus.Scan.{scan_entry, add_event, scan_events_dynamic}

add_event-append :
    (o : Option Event) (es : List Event) (e : Event)
    → add_event o (es ++ e ∷ []) ≡ add_event o es ++ e ∷ []
unfolding add_event
add_event-append none es e = refl
add_event-append (some d) es e = refl

pub scan_events_dynamic-append :
    (fs : List EventFile) (f : EventFile) (events : List Event) (e : Event)
    → scan_events_dynamic fs ≡ ok events
    → scan_entry f ≡ ok (some e)
    → scan_events_dynamic (fs ++ f ∷ []) ≡ ok (events ++ e ∷ [])
unfolding scan_events_dynamic
scan_events_dynamic-append [] f events e h he =
    let none_before : [] ≡ events = ok_inj h in rw he (ap (λ l. ok (l ++ e ∷ [])) none_before)
scan_events_dynamic-append (g ∷ fs) f events e h he =
    let (o, entry, rest) =
      bind-eq-ok (scan_entry g) (λ o. scan_events_dynamic fs >>= λ es. ok (add_event o es)) h in
    let (es, scanned, whole) =
      bind-eq-ok (scan_events_dynamic fs) (λ es. ok (add_event o es)) rest in
    rw entry (
      rw (scan_events_dynamic-append fs f es e scanned he)
        (ap ok (add_event-append o es e) ∙ ap (λ l. ok (l ++ e ∷ [])) (ok_inj whole)))

add_event-IsPermuted :
    (o : Option Event) {es ds : List Event}
    → IsPermuted es ds
    → IsPermuted (add_event o es) (add_event o ds)
unfolding add_event
add_event-IsPermuted none p = p
add_event-IsPermuted (some e) p = cons e p

add_event-swap :
    (o p : Option Event) (es : List Event)
    → IsPermuted (add_event o (add_event p es)) (add_event p (add_event o es))
unfolding add_event
add_event-swap none p es = IsPermuted-refl (add_event p es)
add_event-swap (some e) none es = IsPermuted-refl (e ∷ es)
add_event-swap (some e) (some d) es = swap e d es

-- What listing a folder goes through.
scan_events_dynamic-head :
    (f : EventFile) (fs : List EventFile) (events : List Event)
    → scan_events_dynamic (f ∷ fs) ≡ ok events
    → (o : Option Event) × (es : List Event) × (scan_entry f ≡ ok o)
      × (scan_events_dynamic fs ≡ ok es)
      × (add_event o es ≡ events)
unfolding scan_events_dynamic
scan_events_dynamic-head f fs events h =
    let (o, entry, rest) =
      bind-eq-ok (scan_entry f) (λ o. scan_events_dynamic fs >>= λ es. ok (add_event o es)) h in
    let (es, scanned, whole) =
      bind-eq-ok (scan_events_dynamic fs) (λ es. ok (add_event o es)) rest in
    (o, es, entry, scanned, ok_inj whole)

-- The listing of a folder has the same events in whatever order its files are.
pub scan_events_dynamic-IsPermuted :
    {l r : List EventFile} (events : List Event)
    → IsPermuted l r
    → scan_events_dynamic l ≡ ok events
    → (events' : List Event) × (scan_events_dynamic r ≡ ok events') × IsPermuted events' events
unfolding scan_events_dynamic
scan_events_dynamic-IsPermuted events nil h = (events, h, IsPermuted-refl events)
scan_events_dynamic-IsPermuted events (cons f {l} {r} p) h =
    let (o, es, entry, scanned, whole) = scan_events_dynamic-head f l events h in
    let (ds, others, q) = scan_events_dynamic-IsPermuted es p scanned in
    (
      add_event o ds,
      rw entry (rw others refl),
      subst (IsPermuted (add_event o ds)) whole (add_event-IsPermuted o q),
    )
scan_events_dynamic-IsPermuted events (swap f g l) h =
    let (o, es, entry, scanned, whole) = scan_events_dynamic-head f (g ∷ l) events h in
    let (p, ds, entry', scanned', whole') = scan_events_dynamic-head g l es scanned in
    (
      add_event p (add_event o ds),
      rw entry (rw entry' (rw scanned' refl)),
      subst (IsPermuted (add_event p (add_event o ds))) (ap (add_event o) whole' ∙ whole)
          (add_event-swap p o ds),
    )
scan_events_dynamic-IsPermuted events (trans p q) h =
    let (es, scanned, first) = scan_events_dynamic-IsPermuted events p h in
    let (ds, scanned', second) = scan_events_dynamic-IsPermuted es q scanned in
    (ds, scanned', trans second first)
