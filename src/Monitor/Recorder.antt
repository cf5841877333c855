-- ===== src/Monitor/Recorder.antt =====
-- internal/monitor/recorder.go: the bounded history of events. A Recorder is reached through the
-- pointer that NewRecorder returns, which is not nil. Values have no aliases here, so a copy of the
-- fields is the fields; `none` is a panic on an index out of range.

pub mod Examples
use mathlib.Core.List.{append-nil, append_assoc}
use inoculum.Shared.{
  ℕ, zero, suc, ◌+◌, ◌-◌, ◌≤◌, ◌<◌, ◌≡◌, refl, sym, ap, ◌∙◌, Bool-cases, false, true, inl, inr,
  Option, none, some, List, [], ◌∷◌, ◌++◌, eqb, leb, if◌then◌else◌, ◌>>=◌, arith, length, drop,
  length-append, length-drop, map,
}
use inoculum.Shared.Int.{ℤ, pos, pos_part, leb_ℤ}
use inoculum.Monitor.Model.{SystemEvent}

abbrev pub default_event_limit : ℕ
default_event_limit = 100

pub record Recorder : Type 0 where
  pub limit : ℕ
  pub events : List SystemEvent

abbrev pub new_recorder : ℤ → Recorder
new_recorder limit = record {
  limit = if leb_ℤ limit (pos 0) then default_event_limit else pos_part limit;
  events = [];
}

module _ {ℓ} {A : Type ℓ} where
  -- copy(dst, src)
  copy : List A → List A → List A
  copy [] src = []
  copy (d ∷ dst) [] = d ∷ dst
  copy (d ∷ dst) (s ∷ src) = s ∷ copy dst src

  -- events[i] = event
  write_at : ℕ → A → List A → Option (List A)
  write_at i x [] = none
  write_at zero x (y ∷ ys) = some (x ∷ ys)
  write_at (suc i) x (y ∷ ys) = do ys' ← write_at i x ys; some (y ∷ ys')

-- `now` is the clock that Record reads for an event without a time.
abbrev pub stamp : ℕ → SystemEvent → SystemEvent
stamp now event = elim event.time [ none ↦ record event { time = some now } | some _ ↦ event ]

pub record_event : ℕ → SystemEvent → Recorder → Option Recorder
record_event now event r =
    let moved = copy r.events (drop 1 r.events) in
    let written = write_at (length r.events - 1) (stamp now event) moved in
    if eqb (length r.events) r.limit
    then (do events ← written; some (record r { events = events }))
    else some (record r { events = r.events ++ stamp now event ∷ [] })

pub snapshot : Recorder → List SystemEvent
snapshot r = r.events

pub snapshot_events : (r : Recorder) → snapshot r ≡ r.events
unfolding snapshot
snapshot_events r = refl

-- Room for one event at least, and no more events than there is room for.
pub record IsBounded (r : Recorder) : Type 0 where
  pub room : 0 < r.limit
  pub full : length r.events ≤ r.limit

pub new_recorder-IsBounded : (limit : ℤ) → IsBounded (new_recorder limit)
new_recorder-IsBounded limit = record { room = ground arith; full = omega arith }

-- The last `n` elements.
abbrev pub last {ℓ} : {A : Type ℓ} → ℕ → List A → List A
last n xs = drop (length xs - n) xs

module _ {ℓ} {A : Type ℓ} where
  drop_nil : (n : ℕ) → drop {A = A} n [] ≡ []
  drop_nil zero = refl
  drop_nil (suc n) = refl

  shift :
      (x : A) (y : A) (xs : List A)
      → write_at (length xs) x (copy (y ∷ xs) xs) ≡ some (xs ++ x ∷ [])
  unfolding copy write_at
  shift x y [] = refl
  shift x y (z ∷ zs) = ap (λ o. o >>= λ ys. some (z ∷ ys)) (shift x z zs)

  last_all : (n : ℕ) (xs : List A) → length xs ≤ n → last n xs ≡ xs
  last_all n xs h = ap (λ k. drop k xs) {y = 0} (omega (arith, h))

  last_cons : (n : ℕ) (x : A) (xs : List A) → n ≤ length xs → last n (x ∷ xs) ≡ last n xs
  last_cons n x xs h = ap (λ k. drop k (x ∷ xs)) {y = suc (length xs - n)} (omega (arith, h))

  last-append : (n : ℕ) (xs ys : List A) → last n (last n xs ++ ys) ≡ last n (xs ++ ys)
  last-append n [] ys = ap (λ zs. last n (zs ++ ys)) (drop_nil (0 - n))
  last-append n (x ∷ xs) ys = elim (Bool-cases (leb n (length xs))) [
    | inl more ↦
        ap (λ zs. last n (zs ++ ys)) (last_cons n x xs (ground arith))
        ∙ last-append n xs ys
        ∙ sym (last_cons n x (xs ++ ys) (ground (arith, length-append xs ys)))
    | inr less ↦ ap (λ zs. last n (zs ++ ys)) (last_all n (x ∷ xs) (ground arith))
  ]

abbrev made : ℕ → List SystemEvent → Option Recorder
made n es = some (record { limit = n; events = es })

record_event_at :
    (now : ℕ) (event : SystemEvent) (n : ℕ) (es : List SystemEvent)
    → 0 < n
    → length es ≤ n
    → record_event now event (record { limit = n; events = es })
      ≡ some (record { limit = n; events = last n (es ++ stamp now event ∷ []) })
unfolding record_event
record_event_at now event n [] room fits =
    let loose : eqb 0 n ≡ false = ground arith in
    rw loose (ap (made n) (sym (last_all n (stamp now event ∷ []) (omega (arith, room)))))
record_event_at now event n (e ∷ es) room fits = elim (Bool-cases (eqb (suc (length es)) n)) [
  | inl full ↦
      let new = stamp now event in
      let size : length (e ∷ (es ++ new ∷ [])) - n ≡ 1 =
        ground (arith, length-append es (new ∷ [])) in
      let top : suc (length es) - 1 ≡ length es = omega arith in
      rw full (
        ap (λ k. write_at k new (copy (e ∷ es) es) >>= made n) top
        ∙ ap (λ o. o >>= made n) (shift new e es)
        ∙ ap (λ k. made n (drop k (e ∷ (es ++ new ∷ [])))) (sym size))
  | inr loose ↦
      let new = stamp now event in
      rw loose (
        ap (made n)
          (sym (last_all n (e ∷ (es ++ new ∷ [])) (ground (arith, length-append es (new ∷ []))))))
]

-- Where the history is full, the events move down by one and the new one takes the last place.
pub record_event-last :
    (now : ℕ) (event : SystemEvent) (r : Recorder)
    → IsBounded r
    → record_event now event r
      ≡ some (record r { events = last r.limit (r.events ++ stamp now event ∷ []) })
record_event-last now event r b = record_event_at now event r.limit r.events b.room b.full

pub last-IsBounded :
    (r : Recorder) (es : List SystemEvent)
    → 0 < r.limit
    → IsBounded (record r { events = last r.limit es })
last-IsBounded r es room = record {
  room = room;
  full = omega (arith, length-drop (length es - r.limit) es);
}

-- Record, once for each event, each at its reading of the clock.
pub record_all : List (ℕ × SystemEvent) → Recorder → Option Recorder
record_all [] r = some r
record_all ((now, event) ∷ rest) r = do r' ← record_event now event r; record_all rest r'

abbrev pub stamped : ℕ × SystemEvent → SystemEvent
stamped (now, event) = stamp now event

-- However many events are recorded, Record never goes out of range, and the history that Snapshot
-- reads is then the last of all events, as many as the limit says, in the order they came in.
pub record_all-last :
    (es : List (ℕ × SystemEvent)) (r : Recorder)
    → IsBounded r
    → (r' : Recorder) × (record_all es r ≡ some r')
      × (snapshot r' ≡ last r.limit (r.events ++ map stamped es))
      × (r'.limit ≡ r.limit)
      × IsBounded r'
unfolding record_all snapshot
record_all-last [] r b =
    let whole =
      sym (last_all r.limit r.events b.full) ∙ ap (last r.limit) (sym (append-nil r.events)) in
    (r, refl, whole, refl, b)
record_all-last ((now, event) ∷ es) r b =
    let new = stamp now event in
    let recorded = record r { events = last r.limit (r.events ++ new ∷ []) } in
    let bounded = last-IsBounded r (r.events ++ new ∷ []) b.room in
    let (r', runs, view, limit, bounded') = record_all-last es recorded bounded in
    (
      r',
      ap (λ o. o >>= record_all es) (record_event-last now event r b) ∙ runs,
      view
          ∙ last-append r.limit (r.events ++ new ∷ []) (map stamped es)
          ∙ ap (last r.limit) (append_assoc r.events (new ∷ []) (map stamped es)),
      limit,
      bounded',
    )
