-- ===== src/Runtime/SignalStore/Recent.antt =====
-- The recent events are the last ones of the history.
use mathlib.Core.Path.{subst}
use mathlib.Core.List.{reverse, reverse-cons, reverse-reverse, append_assoc, append-nil}
use Prim.Native.Nat.{min, max}
use aeryon.Base.{
  ℕ, zero, suc, ◌+◌, ◌-◌, ◌≤◌, ◌<◌, ◌≡◌, refl, sym, ap, ◌∙◌, inl, inr, List, [], ◌∷◌, ◌++◌, length,
  length-append, length-drop, take, take_all, take-append, drop, drop_nil, le→leb, true, false,
  drop-append, drop-drop, leb, leb→le, if◌then◌else◌, Bool-cases, arith,
}
use aeryon.Runtime.SignalStore.{SignalSnapshotStore, new, push_event, recent}

module _ {A : Type 0} where
  -- The last `n` of a list, all of a shorter one.
  abbrev pub last_of : ℕ → List A → List A
  last_of n xs = drop (length xs - n) xs

  length-reverse : (xs : List A) → length (reverse xs) ≡ length xs
  length-reverse [] = refl
  length-reverse (x ∷ xs) =
      ap length (reverse-cons x xs)
      ∙ omega (arith, length-append (reverse xs) (x ∷ []), length-reverse xs)

  reverse-take-reverse : (k : ℕ) (xs : List A) → reverse (take k (reverse xs)) ≡ last_of k xs
  reverse-take-reverse zero [] = refl
  reverse-take-reverse (suc k) [] = sym (drop_nil (0 - suc k))
  reverse-take-reverse k (x ∷ xs) = elim (Bool-cases (leb k (length xs))) [
    | inl e ↦
        let small : k ≤ length xs = leb→le k (length xs) e in
        ap (λ l. reverse (take k l)) (reverse-cons x xs)
        ∙ ap reverse (take-append k (reverse xs) (x ∷ []) (omega (arith, length-reverse xs)))
        ∙ reverse-take-reverse k xs
        ∙ ap (λ m. drop m (x ∷ xs))
            (let d : suc (length xs - k) ≡ suc (length xs) - k = omega arith in d)
    | inr e ↦
        let large : length (x ∷ xs) ≤ k = ground arith in
        ap reverse (take_all k (reverse (x ∷ xs)) (omega (arith, length-reverse (x ∷ xs))))
        ∙ reverse-reverse (x ∷ xs)
        ∙ ap (λ m. drop m (x ∷ xs)) (let d : 0 ≡ length (x ∷ xs) - k = omega arith in d)
  ]

  -- One more event, where the last `n` are kept.
  last_of-snoc :
      (n : ℕ) (xs : List A) (e : A)
      → 0 < n
      → (if leb n (length (last_of n xs)) then drop 1 (last_of n xs) else last_of n xs) ++ (e ∷ [])
        ≡ last_of n (xs ++ (e ∷ []))
  last_of-snoc n xs e p = elim (Bool-cases (leb n (length xs))) [
    | inl h ↦
        let large : n ≤ length xs = leb→le n (length xs) h in
        let m = length xs - n in
        let full : leb n (length (last_of n xs)) ≡ true =
          le→leb n (length (last_of n xs)) (omega (arith, length-drop m xs)) in
        rw full (
          ap (λ l. l ++ (e ∷ [])) (drop-drop m 1 xs)
          ∙ sym (drop-append (m + 1) xs (e ∷ []) (omega arith))
          ∙ ap (λ k. drop k (xs ++ (e ∷ [])))
              (let d : m + 1 ≡ length (xs ++ (e ∷ [])) - n =
                  omega (arith, length-append xs (e ∷ [])) in
                d))
    | inr h ↦
        let small : length xs < n = ground arith in
        let free : leb n (length (last_of n xs)) ≡ false =
          ground (arith, length-drop (length xs - n) xs) in
        rw free (
          ap (λ k. drop k xs ++ (e ∷ [])) (let d : length xs - n ≡ 0 = omega arith in d)
          ∙ ap (λ k. drop k (xs ++ (e ∷ [])))
              (let d : 0 ≡ length (xs ++ (e ∷ [])) - n = omega (arith, length-append xs (e ∷ [])) in
                d))
  ]

  last_of-last_of :
      (l c : ℕ) (xs : List A)
      → last_of (min l (length (last_of c xs))) (last_of c xs) ≡ last_of (min l c) xs
  last_of-last_of l c xs =
      let m = length xs - c in
      drop-drop m (length (drop m xs) - min l (length (drop m xs))) xs
      ∙ ap (λ k. drop k xs)
          (let d : m + (length (drop m xs) - min l (length (drop m xs))) ≡ length xs - min l c =
              omega (arith, length-drop m xs) in
            d)

module _ {V O E : Type 0} where
  abbrev pub push_events : List E → SignalSnapshotStore V O E → SignalSnapshotStore V O E
  push_events [] s = s
  push_events (e ∷ es) s = push_events es (push_event e s)

  -- The store keeps the last events of the history.
  abbrev Keeps : List E → SignalSnapshotStore V O E → Type 0
  Keeps history s = (0 < s.recent_capacity) × (s.recent_events ≡ last_of s.recent_capacity history)

  push_events-Keeps :
      (es history : List E) (s : SignalSnapshotStore V O E)
      → Keeps history s
      → Keeps (history ++ es) (push_events es s)
        × ((push_events es s).recent_capacity ≡ s.recent_capacity)
  unfolding push_event
  push_events-Keeps [] history s k =
      ((k.0, k.1 ∙ ap (last_of s.recent_capacity) (sym (append-nil history))), refl)
  push_events-Keeps (e ∷ es) history s k =
      let n = s.recent_capacity in
      let kept : Keeps (history ++ (e ∷ [])) (push_event e s) = (
        k.0,
        ap (λ l. (if leb n (length l) then drop 1 l else l) ++ (e ∷ [])) k.1
            ∙ last_of-snoc n history e k.0,
      ) in
      let (rest, same) = push_events-Keeps es (history ++ (e ∷ [])) (push_event e s) kept in
      (
        subst (λ l. Keeps l (push_events es (push_event e s))) (append_assoc history (e ∷ []) es)
            rest,
        same,
      )

-- For every history of events on a new store: the recent events, at most `limit`, are the last ones
-- of the history, in order, at most `limit` and at most the capacity (at least one).
pub recent_last :
    (V O : Type 0) {E : Type 0} (capacity limit : ℕ) (es : List E)
    → recent limit (push_events es (new {V = V} {O = O} capacity))
      ≡ last_of (min limit (max capacity 1)) es
unfolding recent new
recent_last V O capacity limit es =
    let c = max capacity 1 in
    let s = push_events es (new {V = V} {O = O} capacity) in
    let ((_, events), same) =
      push_events-Keeps es [] (new {V = V} {O = O} capacity) (omega arith, sym (drop_nil _)) in
    reverse-take-reverse (min limit (length s.recent_events)) s.recent_events
    ∙ ap (λ l. last_of (min limit (length l)) l) (events ∙ ap (λ n. last_of n es) same)
    ∙ last_of-last_of limit c es
