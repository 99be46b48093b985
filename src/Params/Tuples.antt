-- ===== src/Params/Tuples.antt =====
-- src/storage/params.rs: `to_params` of the tuples, which a macro derives.
use mathlib.Core.List.{reverse, reverse-cons}
use replicat.Prelude.{
  ℕ, zero, suc, ◌≡◌, refl, sym, ap, ◌∙◌, Option, none, some, List, [], ◌∷◌, ◌++◌, length,
}
use replicat.Params.{TransportableParam, to_params}

-- a component of a tuple, with the conversion at its type
pub record Component : Type 1 where
  pub Carrier : Type 0
  pub value : Carrier
  pub convert : Carrier → TransportableParam

abbrev pub into : Component → TransportableParam
into c = c.convert c.value

-- The indices that `derive_common_tuples` hands to `derive_tuple` for a tuple with so many
-- components: its list begins at 15, and loses its first index from one tuple to the next.
unfoldable pub tuple_indices : ℕ → List ℕ
tuple_indices zero = []
tuple_indices (suc n) = n ∷ tuple_indices n

-- `self.$index`
abbrev pub field {ℓ} : {A : Type ℓ} → List A → ℕ → Option A
field [] n = none
field (x ∷ xs) zero = some x
field (x ∷ xs) (suc n) = field xs n

abbrev push : Option Component → List TransportableParam → List TransportableParam
push none params = params
push (some c) params = into c ∷ params

-- `vec![$(self.$index.into(),)*]`
unfoldable pub gather : List Component → List ℕ → List TransportableParam
gather t [] = []
gather t (n ∷ ns) = push (field t n) (gather t ns)

unfoldable pub tuple_to_params : List Component → List TransportableParam
unfolding tuple_indices gather
tuple_to_params t = gather t (tuple_indices (length t))

push-append :
    (o : Option Component) (xs ys : List TransportableParam) → push o (xs ++ ys) ≡ push o xs ++ ys
push-append none xs ys = refl
push-append (some c) xs ys = refl

gather-cons :
    (c : Component) (t : List Component) (n : ℕ)
    → gather (c ∷ t) (tuple_indices (suc n)) ≡ gather t (tuple_indices n) ++ (into c ∷ [])
unfolding gather tuple_indices
gather-cons c t zero = refl
gather-cons c t (suc n) =
    ap (push (field t n)) (gather-cons c t n)
    ∙ push-append (field t n) (gather t (tuple_indices n)) (into c ∷ [])

-- The parameters of a tuple are those of the vector with the same components, in reverse order: the
-- indices count down, and so the last component is bound to the first place of the statement.
pub tuple_to_params-reverse : (t : List Component) → tuple_to_params t ≡ reverse (to_params into t)
unfolding tuple_to_params gather tuple_indices to_params
tuple_to_params-reverse [] = refl
tuple_to_params-reverse (c ∷ t) =
    gather-cons c t (length t)
    ∙ ap (λ ps. ps ++ (into c ∷ [])) (tuple_to_params-reverse t)
    ∙ sym (reverse-cons (into c) (to_params into t))
