-- ===== src/Auth/Fingerprints.antt =====
-- The fingerprint of a set of scopes does not depend on their order.
use credence_backend.Auth.Guard.{
  units, not_after, insert_text, sort_texts, join_commas, scope_fingerprint,
}
use credence_backend.Base.{ℕ, String, ◌≡◌, refl, ap, ◌∙◌, true, false, List, [], ◌∷◌, arith, map}
use credence_backend.Base.Text.{codes}

-- One list is another in a different order.
pub data Reordered {ℓ} {A : Type ℓ} : List A → List A → Type ℓ where
  same : {xs : List A} → Reordered xs xs
  keep : (x : A) {xs ys : List A} → Reordered xs ys → Reordered (x ∷ xs) (x ∷ ys)
  swap : (x y : A) {xs : List A} → Reordered (x ∷ y ∷ xs) (y ∷ x ∷ xs)
  then_ : {xs ys zs : List A} → Reordered xs ys → Reordered ys zs → Reordered xs zs

not_after_total : (x y : List ℕ) → not_after x y ≡ false → not_after y x ≡ true
not_after_total [] y h = ground arith
not_after_total (a ∷ x) [] h = refl
not_after_total (a ∷ x) (b ∷ y) h = ground (arith, not_after_total x y)

not_after_antisym : (x y : List ℕ) → not_after x y ≡ true → not_after y x ≡ true → x ≡ y
not_after_antisym [] [] h k = refl
not_after_antisym [] (b ∷ y) h k = ground arith
not_after_antisym (a ∷ x) [] h k = ground arith
not_after_antisym (a ∷ x) (b ∷ y) h k = ground (arith, not_after_antisym x y)

not_after_trans :
    (x y z : List ℕ) → not_after x y ≡ true → not_after y z ≡ true → not_after x z ≡ true
not_after_trans [] y z h k = refl
not_after_trans (a ∷ x) [] z h k = ground arith
not_after_trans (a ∷ x) (b ∷ y) [] h k = ground arith
not_after_trans (a ∷ x) (b ∷ y) (c ∷ z) h k = ground (arith, not_after_trans x y z)

insert_text_comm :
    (x y : List ℕ) (zs : List (List ℕ))
    → insert_text x (insert_text y zs) ≡ insert_text y (insert_text x zs)
insert_text_comm x y [] =
    ground (arith, not_after_total x y, not_after_total y x, not_after_antisym x y)
insert_text_comm x y (z ∷ zs) = ground (
  arith,
  not_after_total x y,
  not_after_total y x,
  not_after_antisym x y,
  not_after_trans x y z,
  not_after_trans y x z,
  not_after_total x z,
  not_after_total y z,
  not_after_trans x z y,
  not_after_trans y z x,
  insert_text_comm x y zs,
)

sort_texts-Reordered : {xs ys : List (List ℕ)} → Reordered xs ys → sort_texts xs ≡ sort_texts ys
sort_texts-Reordered same = refl
sort_texts-Reordered (keep x r) = ap (insert_text x) (sort_texts-Reordered r)
sort_texts-Reordered (swap x y {xs}) = insert_text_comm x y (sort_texts xs)
sort_texts-Reordered (then_ r s) = sort_texts-Reordered r ∙ sort_texts-Reordered s

map-Reordered {ℓ κ} :
    {A : Type ℓ} {B : Type κ} (f : A → B) {xs ys : List A}
    → Reordered xs ys
    → Reordered (map f xs) (map f ys)
map-Reordered f same = same
map-Reordered f (keep x r) = keep (f x) (map-Reordered f r)
map-Reordered f (swap x y) = swap (f x) (f y)
map-Reordered f (then_ r s) = then_ (map-Reordered f r) (map-Reordered f s)

pub scope_fingerprint-Reordered :
    {xs ys : List String} → Reordered xs ys → scope_fingerprint xs ≡ scope_fingerprint ys
unfolding scope_fingerprint
scope_fingerprint-Reordered r =
    ap join_commas (sort_texts-Reordered (map-Reordered (λ s. units (codes s)) r))
