-- ===== src/Imports/Hash/Order.antt =====
-- The import-set hash does not depend on the order of the imports; the PE imphash does.
use mathlib.Core.List.{Perm, Permᴰ}
use mathlib.Core.List.Permᴰ
use mathlib.Core.Logic.{∥∥₁_elim}
use ai_reverse_agent.Prelude.{
  ◌≡◌, refl, arith, true, false, not, inl, inr, List, [], ◌∷◌, Bool-cases,
}
use ai_reverse_agent.Prelude.Permuted.{IsTotalOrder, sort_by-perm}
use ai_reverse_agent.Result.{Result, ok, bind_inversion, bind_ok, ok_unique}
use ai_reverse_agent.Text.{Text}
use ai_reverse_agent.Text.Equality.{text_eq, text_eq_iff}
use ai_reverse_agent.Text.Order.{text_ltb, text_ltb_asym, text_ltb_connex, text_ltb_trans}
use ai_reverse_agent.Imports.{ImportLike, ImportError, normalize_import}
use ai_reverse_agent.Imports.Hash.{traverse, text_leb, compute_import_set_hash}

text_leb_total : IsTotalOrder text_leb
unfolding text_leb
text_leb_total = record { total = λ s t h. text_leb_flip s t h; antisym = antisym; trans = trans }
  where
    text_leb_flip : (s t : Text) → not (text_ltb t s) ≡ false → not (text_ltb s t) ≡ true
    text_leb_flip s t h =
        let less : text_ltb t s ≡ true = ground arith in rw (text_ltb_asym t s less) refl

    antisym : (s t : Text) → not (text_ltb t s) ≡ true → not (text_ltb s t) ≡ true → s ≡ t
    antisym s t h k = elim (Bool-cases (text_eq s t)) [
      | inl e ↦ (text_eq_iff s t).0 e
      | inr e ↦
          let f : text_ltb s t ≡ false = ground arith in
          absurd (ground (arith, text_ltb_connex s t e f))
    ]

    trans :
        (s t u : Text)
        → not (text_ltb t s) ≡ true
        → not (text_ltb u t) ≡ true
        → not (text_ltb u s) ≡ true
    trans s t u h k = elim (Bool-cases (text_ltb u s)) [
      | inr e ↦ rw e refl
      | inl e ↦ elim (Bool-cases (text_eq u t)) [
        | inl same ↦
            let p : u ≡ t = (text_eq_iff u t).0 same in
            absurd (let h' = rw (← p) at h in ground (arith, h', e))
        | inr other ↦
            let f : text_ltb u t ≡ false = ground arith in
            let less = text_ltb_connex u t other f in
            absurd (ground (arith, text_ltb_trans t u s less e))
      ]
    ]

-- The parts of a successful run over a list that is not empty.
traverse_inversion :
    (f : ImportLike → Result ImportError Text) (x : ImportLike) (xs : List ImportLike)
    (ts : List Text)
    → traverse f (x ∷ xs) ≡ ok ts
    → (u : Text) × (us : List Text) × (f x ≡ ok u) × (traverse f xs ≡ ok us) × (ts ≡ u ∷ us)
unfolding traverse
traverse_inversion f x xs ts h =
    let (u, p, q) = bind_inversion (f x) _ h in
    let (us, p', q') = bind_inversion (traverse f xs) _ q in (u, us, p, p', ok_unique _ q' refl)

traverse_cons :
    (f : ImportLike → Result ImportError Text) (x : ImportLike) (xs : List ImportLike) (u : Text)
    (us : List Text)
    → f x ≡ ok u
    → traverse f xs ≡ ok us
    → traverse f (x ∷ xs) ≡ ok (u ∷ us)
unfolding traverse
traverse_cons f x xs u us p q = bind_ok (f x) _ p (bind_ok (traverse f xs) _ q refl)

traverse-perm :
    (f : ImportLike → Result ImportError Text) (xs ys : List ImportLike) (ts : List Text)
    → Permᴰ xs ys
    → traverse f xs ≡ ok ts
    → (us : List Text) × (traverse f ys ≡ ok us) × Permᴰ ts us
traverse-perm f [] [] ts Permᴰ.nil h = (ts, h, Permᴰ.refl ts)
traverse-perm f (x ∷ xs) (y ∷ ys) ts (Permᴰ.cons e p) h =
    let (u, us, q, r, s) = traverse_inversion f x xs ts h in
    let (vs, r', p') = traverse-perm f xs ys us p r in
    (u ∷ vs, traverse_cons f y ys u vs (rw (← e) q) r', rw s (Permᴰ.cons refl p'))
traverse-perm f (x ∷ x' ∷ xs) (y ∷ y' ∷ _) ts (Permᴰ.swap e e') h =
    let (u, us, q, r, s) = traverse_inversion f x (x' ∷ xs) ts h in
    let (u', us', q', r', s') = traverse_inversion f x' xs us r in
    (
      u' ∷ u ∷ us',
      traverse_cons f y (y' ∷ xs) u' (u ∷ us') (rw (← e') q')
          (traverse_cons f y' xs u us' (rw (← e) q) r'),
      rw (s, s') (Permᴰ.swap refl refl),
    )
traverse-perm f xs ys ts (Permᴰ.trans {l₂ = zs} p q) h =
    let (us, h', p') = traverse-perm f xs zs ts p h in
    let (vs, h'', q') = traverse-perm f zs ys us q h' in (vs, h'', Permᴰ.trans p' q')

hash_permᴰ :
    (md5 : Text → Text) (xs ys : List ImportLike) (digest : Text)
    → Permᴰ xs ys
    → compute_import_set_hash md5 xs ≡ ok digest
    → compute_import_set_hash md5 ys ≡ ok digest
unfolding compute_import_set_hash
hash_permᴰ md5 xs ys digest p h =
    let (ts, q, r) = bind_inversion (traverse normalize_import xs) _ h in
    let (us, q', p') = traverse-perm normalize_import xs ys ts p q in
    let same = sort_by-perm text_leb text_leb_total ts us p' in
    bind_ok (traverse normalize_import ys) _ q' (rw (← same) r)

digest_set : (r : Result ImportError Text) (digest : Text) → IsProp (r ≡ ok digest)
digest_set r digest = result_set r (ok digest)
  where
    result_set : IsSet (Result ImportError Text)
    result_set = hlevel

-- Where the import-set hash of some imports is computed, it is computed of the same imports in
-- any other order, and is the same.
pub compute_import_set_hash-perm :
    (md5 : Text → Text) (xs ys : List ImportLike) (digest : Text)
    → Perm xs ys
    → compute_import_set_hash md5 xs ≡ ok digest
    → compute_import_set_hash md5 ys ≡ ok digest
compute_import_set_hash-perm md5 xs ys digest p h =
    ∥∥₁_elim p (digest_set _ digest) (λ d. hash_permᴰ md5 xs ys digest d h)
