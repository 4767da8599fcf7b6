-- ===== src/Jobs/Outputs.antt =====
-- requireCompleteOutputSet of media_promotion.go against what it means: no kind twice, and every
-- kind of the manifest.
use seta_im_intern.Prelude.{
  ◌≡◌, ◌↔◌, refl, ap, sym, ◌∙◌, true, false, ◌||◌, List, [], ◌∷◌, arith, inl, inr, Bool-cases, ok,
  >>=-eq-ok,
}
use seta_im_intern.Media.{Output, OutputKind, thumbnail, web, same_kind, output_manifest}
use seta_im_intern.Jobs.Promote.{
  has_kind, collect_kinds, require_policies, require_complete_output_set,
}

abbrev pub kinds : List Output → List OutputKind
kinds [] = []
kinds (o ∷ os) = o.kind ∷ kinds os

-- No kind stands twice.
abbrev pub AreDistinct : List OutputKind → Type 0
AreDistinct [] = Unit
AreDistinct (k ∷ ks) = (has_kind k ks ≡ false) × AreDistinct ks

same_kind_comm : (a b : OutputKind) → same_kind a b ≡ same_kind b a
same_kind_comm a b = ground arith

-- Disjoint from the kinds seen so far.
abbrev AreNew : List OutputKind → List OutputKind → Type 0
AreNew seen [] = Unit
AreNew seen (k ∷ ks) = (has_kind k seen ≡ false) × AreNew seen ks

AreNew-cons :
    (k : OutputKind) (seen ks : List OutputKind)
    → AreNew seen ks
    → has_kind k ks ≡ false
    → AreNew (k ∷ seen) ks
AreNew-cons k seen [] n h = tt
AreNew-cons k seen (x ∷ xs) n h =
    (ground (arith, same_kind_comm x k), AreNew-cons k seen xs n.1 (ground arith))

AreNew-tail :
    (k : OutputKind) (seen ks : List OutputKind)
    → AreNew (k ∷ seen) ks
    → AreNew seen ks × (has_kind k ks ≡ false)
AreNew-tail k seen [] n = (tt, refl)
AreNew-tail k seen (x ∷ xs) n =
    let (rest, absent) = AreNew-tail k seen xs n.1 in
    ((ground arith, rest), ground (arith, same_kind_comm x k))

abbrev pushed : List OutputKind → List Output → List OutputKind
pushed seen [] = seen
pushed seen (o ∷ os) = pushed (o.kind ∷ seen) os

collects :
    (seen : List OutputKind) (os : List Output)
    → AreNew seen (kinds os)
    → AreDistinct (kinds os)
    → collect_kinds seen os ≡ ok (pushed seen os)
unfolding collect_kinds
collects seen [] n d = refl
collects seen (o ∷ os) n d =
    rw n.0 (collects (o.kind ∷ seen) os (AreNew-cons o.kind seen (kinds os) n.1 d.0) d.1)

collected :
    (seen : List OutputKind) (os : List Output) (s : List OutputKind)
    → collect_kinds seen os ≡ ok s
    → AreNew seen (kinds os) × AreDistinct (kinds os) × (s ≡ pushed seen os)
unfolding collect_kinds
collected seen [] s e = (tt, tt, ground arith)
collected seen (o ∷ os) s e = elim (Bool-cases (has_kind o.kind seen)) [
  | inl again ↦ absurd (let f = rw again at e in cc)
  | inr first ↦
      let (n, d, q) = collected (o.kind ∷ seen) os s (rw first at e) in
      let (rest, absent) = AreNew-tail o.kind seen (kinds os) n in ((first, rest), (absent, d), q)
]

has_kind-pushed :
    (k : OutputKind) (seen : List OutputKind) (os : List Output)
    → has_kind k (pushed seen os) ≡ has_kind k (kinds os) || has_kind k seen
has_kind-pushed k seen [] = refl
has_kind-pushed k seen (o ∷ os) = ground (arith, has_kind-pushed k (o.kind ∷ seen) os)

AreNew-nil : (ks : List OutputKind) → AreNew [] ks
AreNew-nil [] = tt
AreNew-nil (k ∷ ks) = (refl, AreNew-nil ks)

policies :
    (seen : List OutputKind)
    → (require_policies seen output_manifest ≡ ok tt)
      ↔ ((has_kind thumbnail seen ≡ true) × (has_kind web seen ≡ true))
unfolding require_policies
policies seen = ((λ h. (ground arith, ground arith)), λ h. ground arith)

in_pushed :
    (k : OutputKind) (outputs : List Output)
    → has_kind k (pushed [] outputs) ≡ has_kind k (kinds outputs)
in_pushed k outputs = ground (arith, has_kind-pushed k [] outputs)

-- An output set is accepted exactly when no kind is in it twice and both the thumbnail and the web
-- rendition are in it.
pub require_complete_output_set_iff :
    (outputs : List Output)
    → (require_complete_output_set outputs ≡ ok tt) ↔ (
        AreDistinct (kinds outputs)
        × (has_kind thumbnail (kinds outputs) ≡ true)
        × (has_kind web (kinds outputs) ≡ true))
unfolding require_complete_output_set
require_complete_output_set_iff outputs = (
  (λ h.
      let (s, e, f) =
        >>=-eq-ok (collect_kinds [] outputs) (λ seen. require_policies seen output_manifest) h in
      let (n, d, q) = collected [] outputs s e in
      let both = (policies s).0 f in
      (
        d,
        sym (in_pushed thumbnail outputs) ∙ ap (has_kind thumbnail) (sym q) ∙ both.0,
        sym (in_pushed web outputs) ∙ ap (has_kind web) (sym q) ∙ both.1,
      )),
  λ h. rw (collects [] outputs (AreNew-nil (kinds outputs)) h.0) (
      (policies (pushed [] outputs)).1
        (in_pushed thumbnail outputs ∙ h.1, in_pushed web outputs ∙ h.2)),
)
