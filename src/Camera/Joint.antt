-- ===== src/Camera/Joint.antt =====
-- Runs of calls on two objects that may assign, acquire and swap their blocks.
use android_device_xiaomi_la.Common.{
  ℕ, ◌≡◌, ◌∙◌, refl, sym, ap, Bool, true, false, List, [], ◌∷◌, Option, some, ◌==◌, if◌then◌else◌,
}
use android_device_xiaomi_la.Camera.Library.{MetadataLib, IsAllocator, IsMeasured, Entry}
use android_device_xiaomi_la.Camera.Maps.{IsMap, IsLocal, IsShown}
use android_device_xiaomi_la.Camera.Refine.{sets, unsets, wipes}
use android_device_xiaomi_la.Camera.Pair.{Pair, Apart-swap}
use android_device_xiaomi_la.Camera.Moves.{
  Move, changes, assigns, acquires, swaps, move, MoveSucceeds, moved, views, PairApart, Apart-move,
  views-move, datum-move,
}
use android_device_xiaomi_la.Camera.Observe.{reads, reads-view}
use android_device_xiaomi_la.Camera.View.{view}

module _ (lib : MetadataLib) (mem : IsAllocator lib) (rooms : IsMeasured lib) (maps : IsMap lib)
    (locals : IsLocal lib maps) where
  open lib use {Store}
  open maps use {Value, datum, Held}

  abbrev pub turned : Pair lib mem rooms maps locals → Pair lib mem rooms maps locals
  turned (m, o, s) = (o, m, s)

  -- A call of the first object, `true`, with the second as its argument, or of the second with the
  -- first.
  unfoldable pub turn :
      Bool × Move → Pair lib mem rooms maps locals → Pair lib mem rooms maps locals
  turn (true, c) w = move lib mem rooms maps locals c w
  turn (false, c) w = turned (move lib mem rooms maps locals c (turned w))

  unfoldable pub turns :
      List (Bool × Move) → Pair lib mem rooms maps locals → Pair lib mem rooms maps locals
  turns [] w = w
  turns (c ∷ cs) w = turns cs (turn c w)

  abbrev pub TurnSucceeds : Bool × Move → Pair lib mem rooms maps locals → Type 0
  TurnSucceeds (true, c) w = MoveSucceeds lib mem rooms maps locals c w
  TurnSucceeds (false, c) w = MoveSucceeds lib mem rooms maps locals c (turned w)

  abbrev pub TurnsSucceed : List (Bool × Move) → Pair lib mem rooms maps locals → Type 0
  TurnsSucceed [] w = Unit {0}
  TurnsSucceed (c ∷ cs) w = TurnSucceeds c w × TurnsSucceed cs (turn c w)

  -- The same calls on two maps, at one tag.
  abbrev pub flipped : Option Value × Option Value → Option Value × Option Value
  flipped (v, w) = (w, v)

  abbrev pub turned_maps :
      Store → ℕ → Bool × Move → Option Value × Option Value → Option Value × Option Value
  turned_maps s t (true, c) x = moved lib mem rooms maps locals s t c x
  turned_maps s t (false, c) x = flipped (moved lib mem rooms maps locals s t c (flipped x))

  abbrev pub outcome :
      Store → ℕ → List (Bool × Move) → Option Value × Option Value → Option Value × Option Value
  outcome s t [] x = x
  outcome s t (c ∷ cs) x = outcome s t cs (turned_maps s t c x)

  PairApart-turned :
      (w : Pair lib mem rooms maps locals)
      → PairApart lib mem rooms maps locals w
      → PairApart lib mem rooms maps locals (turned w)
  PairApart-turned (m, o, s) apart = Apart-swap lib mem rooms maps locals m o s apart

  PairApart-turn :
      (c : Bool × Move) (w : Pair lib mem rooms maps locals)
      → PairApart lib mem rooms maps locals w
      → TurnSucceeds c w
      → PairApart lib mem rooms maps locals (turn c w)
  unfolding turn
  PairApart-turn (true, c) (m, o, s) apart h = Apart-move lib mem rooms maps locals c m o s apart h
  PairApart-turn (false, c) (m, o, s) apart h =
      PairApart-turned (move lib mem rooms maps locals c (o, m, s))
        (Apart-move lib mem rooms maps locals c o m s (PairApart-turned (m, o, s) apart) h)

  views-turn :
      (c : Bool × Move) (w : Pair lib mem rooms maps locals) (t : ℕ)
      → PairApart lib mem rooms maps locals w
      → TurnSucceeds c w
      → views lib mem rooms maps locals (turn c w) t
        ≡ turned_maps w.2 t c (views lib mem rooms maps locals w t)
  unfolding turn
  views-turn (true, c) (m, o, s) t apart h = views-move lib mem rooms maps locals c m o s t apart h
  views-turn (false, c) (m, o, s) t apart h =
      ap flipped
        (views-move lib mem rooms maps locals c o m s t (PairApart-turned (m, o, s) apart) h)

  datum-turn :
      (c : Bool × Move) (w : Pair lib mem rooms maps locals) (a n : ℕ)
      → PairApart lib mem rooms maps locals w
      → TurnSucceeds c w
      → Held a n
      → datum (turn c w).2 a n ≡ datum w.2 a n
  unfolding turn
  datum-turn (true, c) (m, o, s) a n apart h held =
      datum-move lib mem rooms maps locals c m o s a n apart h held
  datum-turn (false, c) (m, o, s) a n apart h held =
      datum-move lib mem rooms maps locals c o m s a n (PairApart-turned (m, o, s) apart) h held

  -- Two memories that hold the same data of the caller's give the calls the same effect.
  moved-kept :
      (c : Move) (w : Pair lib mem rooms maps locals) (s s' : Store) (t : ℕ)
      (x : Option Value × Option Value)
      → ((a n : ℕ) → Held a n → datum s' a n ≡ datum s a n)
      → MoveSucceeds lib mem rooms maps locals c w
      → moved lib mem rooms maps locals s' t c x ≡ moved lib mem rooms maps locals s t c x
  moved-kept (changes (sets k tag a n)) (m, o, s0) s s' t (v, u) kept h =
      ap (λ d. (if t == tag then some d else v, u)) (kept a n h.1)
  moved-kept (changes (unsets tag e)) (m, o, s0) s s' t (v, u) kept h = refl
  moved-kept (changes wipes) (m, o, s0) s s' t (v, u) kept h = refl
  moved-kept assigns (m, o, s0) s s' t (v, u) kept h = refl
  moved-kept acquires (m, o, s0) s s' t (v, u) kept h = refl
  moved-kept swaps (m, o, s0) s s' t (v, u) kept h = refl

  turned_maps-kept :
      (c : Bool × Move) (w : Pair lib mem rooms maps locals) (s s' : Store) (t : ℕ)
      (x : Option Value × Option Value)
      → ((a n : ℕ) → Held a n → datum s' a n ≡ datum s a n)
      → TurnSucceeds c w
      → turned_maps s' t c x ≡ turned_maps s t c x
  turned_maps-kept (true, c) w s s' t x kept h = moved-kept c w s s' t x kept h
  turned_maps-kept (false, c) w s s' t x kept h =
      ap flipped (moved-kept c (turned w) s s' t (flipped x) kept h)

  outcome-kept :
      (cs : List (Bool × Move)) (w : Pair lib mem rooms maps locals) (s s' : Store) (t : ℕ)
      (x : Option Value × Option Value)
      → ((a n : ℕ) → Held a n → datum s' a n ≡ datum s a n)
      → TurnsSucceed cs w
      → outcome s' t cs x ≡ outcome s t cs x
  outcome-kept [] w s s' t x kept all = refl
  outcome-kept (c ∷ cs) w s s' t x kept all =
      outcome-kept cs (turn c w) s s' t (turned_maps s' t c x) kept all.1
      ∙ ap (outcome s t cs) (turned_maps-kept c w s s' t x kept all.0)

  turns-outcome :
      (cs : List (Bool × Move)) (w : Pair lib mem rooms maps locals) (t : ℕ)
      → PairApart lib mem rooms maps locals w
      → TurnsSucceed cs w
      → views lib mem rooms maps locals (turns cs w) t
        ≡ outcome w.2 t cs (views lib mem rooms maps locals w t)
  unfolding turns
  turns-outcome [] w t apart all = refl
  turns-outcome (c ∷ cs) w t apart all =
      turns-outcome cs (turn c w) t (PairApart-turn c w apart all.0) all.1
      ∙ ap (outcome (turn c w).2 t cs) (views-turn c w t apart all.0)
      ∙ outcome-kept cs (turn c w) w.2 (turn c w).2 t
          (turned_maps w.2 t c (views lib mem rooms maps locals w t))
          (λ a n held. datum-turn c w a n apart all.0 held) all.1

module _ (lib : MetadataLib) (mem : IsAllocator lib) (rooms : IsMeasured lib) (maps : IsMap lib)
    (locals : IsLocal lib maps) (shows : IsShown lib maps) where
  open maps use {Value}

  -- What `exists` and `find` give for a tag of the first object and of the second.
  abbrev pub both_read : Pair lib mem rooms maps locals → Entry → ℕ → Option Value × Option Value
  both_read (m, o, s) e t =
      (reads lib mem rooms maps shows m s e t, reads lib mem rooms maps shows o s e t)

  both_read-views :
      (w : Pair lib mem rooms maps locals) (e : Entry) (t : ℕ)
      → both_read w e t ≡ views lib mem rooms maps locals w t
  both_read-views (m, o, s) e t =
      ap (λ v. (v, reads lib mem rooms maps shows o s e t))
        (reads-view lib mem rooms maps shows m s e t)
      ∙ ap (λ v. (view lib mem rooms maps m s t, v)) (reads-view lib mem rooms maps shows o s e t)

  -- Two objects that do not share a block stay two maps for their clients, whatever calls they get
  -- in turn: updates, erasures and clearings of the one and the other, assignments of the one to
  -- the other, `acquire` of the other object and `swap`. If the calls of a run all succeed, what
  -- `exists` and `find` const then give for a tag of both objects is what they gave at first,
  -- changed by the same calls on two maps: an assignment copies the map, `acquire` moves it and
  -- leaves the empty one, `swap` exchanges the two. The data that is passed is the caller's own, and
  -- sizes stay below 2^32 when doubled.
  pub turns-reads :
      (cs : List (Bool × Move)) (w : Pair lib mem rooms maps locals) (e : Entry) (t : ℕ)
      → PairApart lib mem rooms maps locals w
      → TurnsSucceed lib mem rooms maps locals cs w
      → both_read (turns lib mem rooms maps locals cs w) e t
        ≡ outcome lib mem rooms maps locals w.2 t cs (both_read w e t)
  turns-reads cs w e t apart all =
      both_read-views (turns lib mem rooms maps locals cs w) e t
      ∙ turns-outcome lib mem rooms maps locals cs w t apart all
      ∙ ap (outcome lib mem rooms maps locals w.2 t cs) (sym (both_read-views w e t))
