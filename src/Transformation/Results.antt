-- ===== src/Transformation/Results.antt =====
-- Exceptions in loops: a loop that makes a list ends with an element for each step, or at the first
-- step that throws.
use envoy_wasm_filters.Base.{
  ◌≡◌, refl, ap, ◌↔◌, ◌⊎◌, inl, inr, List, [], ◌∷◌, ◌++◌, arith, Bytes, All, All-mono,
}
use envoy_wasm_filters.Transformation.Engine.{Result, ok, thrown, ◌>>=◌}

-- Elements of two lists correspond, one by one.
abbrev pub Zip {ℓ κ} : {A : Type ℓ} {B : Type κ} → (A → B → Type 0) → List A → List B → Type 0
Zip Q [] [] = Unit
Zip Q [] (y ∷ ys) = ⊥
Zip Q (x ∷ xs) [] = ⊥
Zip Q (x ∷ xs) (y ∷ ys) = Q x y × Zip Q xs ys

pub Zip-map {ℓ κ} :
    {A : Type ℓ} {B : Type κ} (P Q : A → B → Type 0)
    → ((x : A) (y : B) → P x y → Q x y)
    → (xs : List A) (ys : List B) → Zip P xs ys
    → Zip Q xs ys
Zip-map P Q f [] [] h = tt
Zip-map P Q f [] (y ∷ ys) h = h
Zip-map P Q f (x ∷ xs) [] h = h
Zip-map P Q f (x ∷ xs) (y ∷ ys) (h, hs) = (f x y h, Zip-map P Q f xs ys hs)

pub >>=-eq-ok {ℓ κ} :
    {A : Type ℓ} {B : Type κ} (m : Result A) (f : A → Result B) (b : B)
    → (m >>= f) ≡ ok b
    → (a : A) × (m ≡ ok a) × (f a ≡ ok b)
>>=-eq-ok (ok a) f b h = (a, refl, h)
>>=-eq-ok (thrown e) f b h = cc

pub >>=-eq-thrown {ℓ κ} :
    {A : Type ℓ} {B : Type κ} (m : Result A) (f : A → Result B) (e : Bytes)
    → (m >>= f) ≡ thrown e
    → (m ≡ thrown e) ⊎ ((a : A) × (m ≡ ok a) × (f a ≡ thrown e))
>>=-eq-thrown (ok a) f e h = inr (a, refl, h)
>>=-eq-thrown (thrown d) f e h = let same : d ≡ e = cc in inl (ap thrown same)

-- The first element that fails, with a message, behind elements that make something.
pub record FirstFailure {ℓ} {A : Type ℓ} (Makes : A → Type 0) (Fails : A → Bytes → Type 0)
    (xs : List A) (message : Bytes) : Type ℓ where
  pub before : List A
  pub failing : A
  pub after : List A
  pub split : xs ≡ before ++ failing ∷ after
  pub made : All Makes before
  pub fails : Fails failing message

pub FirstFailure-map {ℓ} :
    {A : Type ℓ} (M N : A → Type 0) (F G : A → Bytes → Type 0)
    → ((x : A) → M x → N x)
    → ((x : A) (message : Bytes) → F x message → G x message)
    → (xs : List A) (message : Bytes) → FirstFailure M F xs message
    → FirstFailure N G xs message
FirstFailure-map M N F G makes fails xs message first = record {
  before = first.before;
  failing = first.failing;
  after = first.after;
  split = first.split;
  made = All-mono M N first.before makes first.made;
  fails = fails first.failing message first.fails;
}

module _ {ℓ} {A : Type ℓ} {B : Type 0} (f : A → Result B) where
  abbrev pub Returns : A → Type 0
  Returns x = (y : B) × (f x ≡ ok y)

  abbrev pub Throws : A → Bytes → Type 0
  Throws x message = f x ≡ thrown message

  unfoldable pub traverse : List A → Result (List B)
  traverse [] = ok []
  traverse (x ∷ xs) = do y ← f x; ys ← traverse xs; ok (y ∷ ys)

  traverse_cons :
      (x : A) (xs : List A) (ys : List B)
      → traverse (x ∷ xs) ≡ ok ys
      → (y : B) × (rest : List B) × (f x ≡ ok y) × (traverse xs ≡ ok rest) × (ys ≡ y ∷ rest)
  unfolding traverse
  traverse_cons x xs ys h = ground arith

  traverse-Zip : (xs : List A) (ys : List B) → traverse xs ≡ ok ys → Zip (λ x y. f x ≡ ok y) xs ys
  traverse-Zip [] [] h = tt
  traverse-Zip [] (y ∷ ys) h = unfold traverse in cc
  traverse-Zip (x ∷ xs) ys h =
      let (y, rest, here, later, e) = traverse_cons x xs ys h in
      rw e (here, traverse-Zip xs rest later)

  Zip-traverse : (xs : List A) (ys : List B) → Zip (λ x y. f x ≡ ok y) xs ys → traverse xs ≡ ok ys
  unfolding traverse
  Zip-traverse [] [] h = refl
  Zip-traverse [] (y ∷ ys) h = absurd h
  Zip-traverse (x ∷ xs) [] h = absurd h
  Zip-traverse (x ∷ xs) (y ∷ ys) (h, hs) = rw (h, Zip-traverse xs ys hs) refl

  -- The loop ends exactly where each step makes its element.
  pub traverse-ok_iff :
      (xs : List A) (ys : List B) → (traverse xs ≡ ok ys) ↔ Zip (λ x y. f x ≡ ok y) xs ys
  traverse-ok_iff xs ys = (traverse-Zip xs ys, Zip-traverse xs ys)

  traverse-thrown_cases :
      (x : A) (xs : List A) (message : Bytes)
      → traverse (x ∷ xs) ≡ thrown message
      → (f x ≡ thrown message) ⊎ ((y : B) × (f x ≡ ok y) × (traverse xs ≡ thrown message))
  unfolding traverse
  traverse-thrown_cases x xs message h = ground arith

  traverse-FirstFailure :
      (xs : List A) (message : Bytes)
      → traverse xs ≡ thrown message
      → FirstFailure Returns Throws xs message
  traverse-FirstFailure [] message h = unfold traverse in cc
  traverse-FirstFailure (x ∷ xs) message h =
      let later = traverse-FirstFailure xs message in
      elim (traverse-thrown_cases x xs message h) [
        | inl here ↦ record {
          before = [];
          failing = x;
          after = xs;
          split = refl;
          made = tt;
          fails = here;
        }
        | inr (y, made, more) ↦
            let first = later more in
            record {
              before = x ∷ first.before;
              failing = first.failing;
              after = first.after;
              split = ap (λ l. x ∷ l) first.split;
              made = ((y, made), first.made);
              fails = first.fails;
            }
      ]

  traverse-append :
      (before after : List A) (failing : A) (message : Bytes)
      → All Returns before
      → f failing ≡ thrown message
      → traverse (before ++ failing ∷ after) ≡ thrown message
  unfolding traverse
  traverse-append [] after failing message h t = rw t refl
  traverse-append (x ∷ before) after failing message ((y, made), h) t =
      rw (made, traverse-append before after failing message h t) refl

  -- It throws exactly what its first failing step throws.
  pub traverse-thrown_iff :
      (xs : List A) (message : Bytes)
      → (traverse xs ≡ thrown message) ↔ FirstFailure Returns Throws xs message
  traverse-thrown_iff xs message = (
    traverse-FirstFailure xs message,
    λ first.
        rw first.split
          (traverse-append first.before first.after first.failing message first.made first.fails),
  )
