-- ===== src/Stateful.antt =====
-- Calls that change a state and may fail, and what an error leaves: a Go function that returns an
-- error after some of its writes keeps those writes. It models no code by itself.
use crypto_exchange_lab.Prelude.{◌≡◌, refl, sym, ap, Option, none, some}
use crypto_exchange_lab.Errors.{Failure, Result, ok, err}

abbrev pub Stateful {ℓ} : Type 0 → Type ℓ → Type ℓ
Stateful S A = S → Result A × S

-- A row that must be there.
abbrev pub found {ℓ} : {A : Type ℓ} → Failure → Option A → Result A
found f none = err f
found f (some a) = ok a

module _ {S : Type 0} where
  abbrev pub follow {ℓ κ} :
      {A : Type ℓ} {B : Type κ} → Result A × S → (A → Stateful S B) → Result B × S
  follow (ok a, s) next = next a s
  follow (err e, s) next = (err e, s)

  infixl 5 ◌>>=◌
  unfoldable pub ◌>>=◌ {ℓ κ} :
      {A : Type ℓ} {B : Type κ} → Stateful S A → (A → Stateful S B) → Stateful S B
  (first >>= next) s = follow (first s) next

  -- A value that is read off the state, or an error, with the state as it was.
  abbrev pub ask {ℓ} : {A : Type ℓ} → (S → Result A) → Stateful S A
  ask f s = (f s, s)

  -- A write that succeeds.
  abbrev pub update : (S → S) → Stateful {0} S Unit
  update f s = (ok tt, f s)

  follow_ok {ℓ κ} :
      {A : Type ℓ} {B : Type κ} (x : Result A × S) (next : A → Stateful S B) (b : B) (s' : S)
      → follow x next ≡ (ok b, s')
      → (a : A) × (t : S) × (x ≡ (ok a, t)) × (next a t ≡ (ok b, s'))
  follow_ok (ok a, t) next b s' h = (a, t, refl, h)
  follow_ok (err e, t) next b s' h = absurd cc

  -- A chain that came to its end went through each call.
  pub bind_action {ℓ κ} :
      {A : Type ℓ} {B : Type κ} (first : Stateful S A) (next : A → Stateful S B) (s s' : S) (b : B)
      → (first >>= next) s ≡ (ok b, s')
      → (a : A) × (t : S) × (first s ≡ (ok a, t)) × (next a t ≡ (ok b, s'))
  unfolding ◌>>=◌
  bind_action first next s s' b h = follow_ok (first s) next b s' h

module _ {S : Type 0} (IsFine : S → Type 0) where
  -- The call keeps a property of the state, whether it succeeds or not.
  pub record Keeps {ℓ} {A : Type ℓ} (m : Stateful S A) : Type 0 where
    pub keeps : (s : S) → IsFine s → IsFine (m s).1

  follow-IsFine {ℓ κ} :
      {A : Type ℓ} {B : Type κ} (x : Result A × S) (next : A → Stateful S B)
      → IsFine x.1
      → ((a : A) → Keeps (next a))
      → IsFine (follow x next).1
  follow-IsFine (ok a, s) next h k = (k a).keeps s h
  follow-IsFine (err e, s) next h k = h

  pub bind-Keeps {ℓ κ} :
      {A : Type ℓ} {B : Type κ} (first : Stateful S A) (next : A → Stateful S B)
      → Keeps first
      → ((a : A) → Keeps (next a))
      → Keeps (first >>= next)
  unfolding ◌>>=◌
  bind-Keeps first next h k = record { keeps = λ s i. follow-IsFine (first s) next (h.keeps s i) k }

  pub ask-Keeps {ℓ} : {A : Type ℓ} (f : S → Result A) → Keeps (ask f)
  ask-Keeps f = record { keeps = λ s i. i }

  pub update-Keeps : (f : S → S) → ((s : S) → IsFine s → IsFine (f s)) → Keeps (update f)
  update-Keeps f h = record { keeps = h }

module _ {S : Type 0} where
  -- The call when only what it wrote matters: a Go call whose error is dropped.
  abbrev pub anyway {ℓ} : {A : Type ℓ} → Stateful S A → Stateful {0} S Unit
  anyway m s = (ok tt, (m s).1)

  abbrev pub undone {ℓ κ} : {A : Type ℓ} {B : Type κ} → Result A × S → Stateful S B → Result A × S
  undone (ok a, s) undo = (ok a, s)
  undone (err e, s) undo = (err e, (undo s).1)

  -- The error of a call is returned once something was undone; what undoing says is dropped.
  unfoldable pub or_undo {ℓ κ} :
      {A : Type ℓ} {B : Type κ} → Stateful S A → Stateful S B → Stateful S A
  or_undo m undo s = undone (m s) undo

  -- A call of a part of the state.
  abbrev pub written : {T : Type 0} → (T → S → S) → S → Result T → Result {0} Unit × S
  written put s (ok t) = (ok tt, put t s)
  written put s (err e) = (err e, s)

  abbrev pub within : {T : Type 0} → (S → T) → (T → S → S) → (T → Result T) → Stateful {0} S Unit
  within get put call s = written put s (call (get s))

module _ {S : Type 0} (IsFine : S → Type 0) where
  pub anyway-Keeps {ℓ} : {A : Type ℓ} (m : Stateful S A) → Keeps IsFine m → Keeps IsFine (anyway m)
  anyway-Keeps m h = record { keeps = h.keeps }

  undone-IsFine {ℓ κ} :
      {A : Type ℓ} {B : Type κ} (x : Result A × S) (undo : Stateful S B)
      → IsFine x.1
      → Keeps IsFine undo
      → IsFine (undone x undo).1
  undone-IsFine (ok a, s) undo i h = i
  undone-IsFine (err e, s) undo i h = h.keeps s i

  pub or_undo-Keeps {ℓ κ} :
      {A : Type ℓ} {B : Type κ} (m : Stateful S A) (undo : Stateful S B)
      → Keeps IsFine m
      → Keeps IsFine undo
      → Keeps IsFine (or_undo m undo)
  unfolding or_undo
  or_undo-Keeps m undo h k = record { keeps = λ s i. undone-IsFine (m s) undo (h.keeps s i) k }

  -- A call of a part of the state, where what it writes keeps the property.
  pub within-Keeps :
      {T : Type 0} (get : S → T) (put : T → S → S) (call : T → Result T)
      → ((s : S) (t : T) → call (get s) ≡ ok t → IsFine s → IsFine (put t s))
      → Keeps IsFine (within get put call)
  within-Keeps get put call h = record {
    keeps = λ s i. written-IsFine s (call (get s)) (λ t e. h s t e i) i;
  }
    where
      written-IsFine :
          (s : S) (r : Result _)
          → ((t : _) → r ≡ ok t → IsFine (put t s))
          → IsFine s
          → IsFine (written put s r).1
      written-IsFine s (ok t) k i = k t refl
      written-IsFine s (err e) k i = i

module _ {S : Type 0} where
  undone_ok {ℓ κ} :
      {A : Type ℓ} {B : Type κ} (x : Result A × S) (undo : Stateful S B) (a : A) (t : S)
      → undone x undo ≡ (ok a, t)
      → x ≡ (ok a, t)
  undone_ok (ok b, s) undo a t h = h
  undone_ok (err e, s) undo a t h = absurd cc

  -- A call that came through was not undone.
  pub or_undo_ok {ℓ κ} :
      {A : Type ℓ} {B : Type κ} (m : Stateful S A) (undo : Stateful S B) (s : S) (a : A) (t : S)
      → or_undo m undo s ≡ (ok a, t)
      → m s ≡ (ok a, t)
  unfolding or_undo
  or_undo_ok m undo s a t h = undone_ok (m s) undo a t h

  written_ok :
      {T : Type 0} (put : T → S → S) (s : S) (r : Result T) (t : S)
      → written put s r ≡ (ok tt, t)
      → (x : T) × (r ≡ ok x) × (t ≡ put x s)
  written_ok put s (ok x) t h = (x, refl, sym (ap (λ y. y.1) h))
  written_ok put s (err e) t h = absurd cc

  -- A call of a part of the state that came through put its result in place.
  pub within_ok :
      {T : Type 0} (get : S → T) (put : T → S → S) (call : T → Result T) (s t : S)
      → within get put call s ≡ (ok tt, t)
      → (x : T) × (call (get s) ≡ ok x) × (t ≡ put x s)
  within_ok get put call s t h = written_ok put s (call (get s)) t h
