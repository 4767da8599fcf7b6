-- ===== src/Import/Order.antt =====
-- The sort against its specification: an arrangement of the folders in which each parent comes
-- before its children.
use seta_im_intern.Prelude.{
  ℕ, ◌≡◌, ◌≢◌, ◌⊎◌, refl, sym, subst, Bool, Bool-cases, true, Option, none, some, List, [], ◌∷◌,
  length, ◌==◌, arith, inl, inr, All, Result, ok, err, Result-cases, ◌∙◌,
}
use seta_im_intern.Import.Dataset.{ImportFolder, ImportError, cyclic_graph, unfinished_sort}
use seta_im_intern.Import.Sort.{
  Graph, folder_map, no_links, link_folders, roots, sort_linked, topological_sort_folders,
}
use seta_im_intern.Prelude.{has_key, AreDistinct, length-le_of_distinct}
use seta_im_intern.Import.Linked.{
  keys, children_of, degree_of, parents_are_valid, parent_is_valid, link_folders-total,
  link_folders-error, folder_map-absent, link_folders-IsLinked,
}
use seta_im_intern.Import.Counting.{perm_of_distinct, All-perm}
use seta_im_intern.Import.Reached.{
  parent_is_done, AreParentsFirst, IsReached, IsReached-roots, sort_queue-IsReached, length-keys,
}
use mathlib.Core.List.{Permᴰ, append-nil}
use mathlib.Core.List.Permᴰ

-- What the sort is to return.
pub record IsSorting (folders sorted : List ImportFolder) : Type 0 where
  pub same : Permᴰ sorted folders
  pub ordered : AreParentsFirst [] sorted

kept_later :
    (g : ImportFolder) (gs fs : List ImportFolder)
    → All (λ f. folder_map gs f.key ≡ some f) fs
    → All (λ f. folder_map (g ∷ gs) f.key ≡ some f) fs
unfolding folder_map
kept_later g gs [] h = tt
kept_later g gs (f ∷ fs) h = (rw (h.0) refl, kept_later g gs fs h.1)

-- With distinct keys each folder is the one of its key.
their_own :
    (fs : List ImportFolder) → AreDistinct (keys fs) → All (λ f. folder_map fs f.key ≡ some f) fs
unfolding folder_map
their_own [] d = tt
their_own (g ∷ gs) d =
    (ground (arith, folder_map-absent g.key gs d.0), kept_later g gs gs (their_own gs d.1))

parent_is_done_mono :
    (seen final : List ℕ) (parent : Option ℕ)
    → ((k : ℕ) → has_key seen k ≡ true → has_key final k ≡ true)
    → parent_is_done seen parent ≡ true
    → parent_is_done final parent ≡ true
parent_is_done_mono seen final none sub h = refl
parent_is_done_mono seen final (some p) sub h = sub p h

has_each :
    (ks : List ℕ) (fs : List ImportFolder)
    → All (λ f. has_key ks f.key ≡ true) fs
    → (k : ℕ) → has_key (keys fs) k ≡ true
    → has_key ks k ≡ true
has_each ks [] h k e = cc
has_each ks (f ∷ fs) h k e = ground (arith, has_each ks fs h.1 k)

parents_known :
    (ks seen : List ℕ) (fs : List ImportFolder)
    → AreParentsFirst seen fs
    → ((k : ℕ) → has_key seen k ≡ true → has_key ks k ≡ true)
    → All (λ f. has_key ks f.key ≡ true) fs
    → All (λ f. parent_is_done ks f.parent_key ≡ true) fs
parents_known ks seen [] first sub own = tt
parents_known ks seen (f ∷ fs) first sub own = (
  parent_is_done_mono seen ks f.parent_key sub first.0,
  parents_known ks (f.key ∷ seen) fs first.1 (λ k h. ground (arith, sub k, own.0)) own.1,
)

module _ (folders : List ImportFolder) (graph : Graph) (distinct : AreDistinct (keys folders))
    (linked : (p : ℕ) → graph.children p ≡ children_of folders p) (in_degree : ℕ → ℕ)
    (final : List ImportFolder)
    (s : IsReached folders graph distinct linked [] in_degree final) where
  all_final :
      (seen : List ℕ) (fs : List ImportFolder)
      → AreParentsFirst seen fs
      → ((k : ℕ) → has_key seen k ≡ true → has_key (keys final) k ≡ true)
      → All (λ f. folder_map folders f.key ≡ some f) fs
      → All (λ f. has_key (keys final) f.key ≡ true) fs
  all_final seen [] first sub own = tt
  all_final seen (f ∷ fs) first sub own =
      let done = parent_is_done_mono seen (keys final) f.parent_key sub first.0 in
      let here : has_key (keys final) f.key ≡ true =
        ground (arith, append-nil (keys final), s.ready f.key f own.0) in
      (here, all_final (f.key ∷ seen) fs first.1 (λ k h. ground (arith, sub k)) own.1)

  IsSorting-final : length final ≡ length folders → IsSorting folders final
  IsSorting-final same = record {
    same =
        perm_of_distinct final folders (subst AreDistinct (append-nil (keys final)) s.once) distinct
          s.given same;
    ordered = s.ordered;
  }

  -- Where some arrangement is in order, the loop has sorted every folder.
  final-full :
      (other : List ImportFolder)
      → Permᴰ other folders
      → AreParentsFirst [] other
      → length final ≡ length folders
  final-full other perm first =
      let own = All-perm _ (Permᴰ.symm perm) (their_own folders distinct) in
      let all = All-perm _ perm (all_final [] other first (λ k h. cc) own) in
      omega (
        arith,
        length-keys final,
        length-keys folders,
        length-le_of_distinct (keys folders) (keys final) distinct
            (has_each (keys final) folders all),
        length-le_of_distinct (keys final) (keys folders)
            (subst AreDistinct (append-nil (keys final)) s.once)
            (λ k h. s.known k (ground (arith, append-nil (keys final)))),
      )

-- An arrangement in order, or the reason why there is none.
abbrev pub Sorts : List ImportFolder → Result ImportError (List ImportFolder) → Type 0
Sorts folders result =
    ((sorted : List ImportFolder) × (result ≡ ok sorted) × IsSorting folders sorted)
    ⊎ ((e : ImportError) × (result ≡ err e)
        × (e ≢ unfinished_sort)
        × ¬ ((sorted : List ImportFolder) × IsSorting folders sorted))

module _ (folders : List ImportFolder) (graph : Graph) (distinct : AreDistinct (keys folders))
    (linked : (p : ℕ) → graph.children p ≡ children_of folders p)
    (counted : (k : ℕ) → graph.in_degree k ≡ degree_of folders k) where
  sort_linked-Sorts : Sorts folders (sort_linked folders graph)
  sort_linked-Sorts =
      let start = IsReached-roots folders graph distinct linked graph.in_degree counted in
      let (final, in_degree, ends, s) =
        sort_queue-IsReached folders graph distinct linked (length folders)
          (roots graph.in_degree folders) graph.in_degree [] (omega arith) start in
      elim (Bool-cases (length final == length folders)) [
        | inl all ↦ inl (
          final,
          rw (ends, all) refl,
          IsSorting-final folders graph distinct linked in_degree final s (ground arith),
        )
        | inr some_left ↦ inr (
          cyclic_graph,
          rw (ends, some_left) refl,
          (λ e. cc),
          λ (other, sorting).
              let full =
                final-full folders graph distinct linked in_degree final s other sorting.same
                  sorting.ordered in
              absurd (ground arith),
        )
      ]

all_have_key :
    (ks : List ℕ) (fs : List ImportFolder)
    → ((k : ℕ) → has_key (keys fs) k ≡ true → has_key ks k ≡ true)
    → All (λ f. has_key ks f.key ≡ true) fs
all_have_key ks [] sub = tt
all_have_key ks (f ∷ fs) sub =
    (sub f.key (ground arith), all_have_key ks fs (λ k h. sub k (ground arith)))

valid_parent :
    (valid_keys : ℕ → Bool) (ks : List ℕ) (parent : Option ℕ)
    → ((k : ℕ) → valid_keys k ≡ has_key ks k)
    → parent_is_done ks parent ≡ true
    → parent_is_valid valid_keys parent ≡ true
valid_parent valid_keys ks none same h = refl
valid_parent valid_keys ks (some p) same h = same p ∙ h

parents_are_valid-of :
    (valid_keys : ℕ → Bool) (ks : List ℕ) (fs : List ImportFolder)
    → ((k : ℕ) → valid_keys k ≡ has_key ks k)
    → All (λ f. parent_is_done ks f.parent_key ≡ true) fs
    → parents_are_valid valid_keys fs ≡ true
parents_are_valid-of valid_keys ks [] same h = refl
parents_are_valid-of valid_keys ks (f ∷ fs) same h = ground (
  arith,
  valid_parent valid_keys ks f.parent_key same h.0,
  parents_are_valid-of valid_keys ks fs same h.1,
)

-- Where the keys are distinct and are the valid keys, the sort returns all the folders, each once
-- and each behind its parent, if they can be so arranged, and otherwise an error of its own.
pub topological_sort_folders-Sorts :
    (folders : List ImportFolder) (valid_keys : ℕ → Bool)
    → AreDistinct (keys folders)
    → ((k : ℕ) → valid_keys k ≡ has_key (keys folders) k)
    → Sorts folders (topological_sort_folders folders valid_keys)
unfolding topological_sort_folders
topological_sort_folders-Sorts folders valid_keys distinct same =
    elim (Result-cases (link_folders valid_keys folders no_links)) [
      | inl (graph, e) ↦
          let linked = link_folders-IsLinked valid_keys folders no_links graph e in
          rw e (
            sort_linked-Sorts folders graph distinct linked.children
              (λ k. ground (arith, linked.in_degree k)))
      | inr (e, failed) ↦
          let (key, unknown) = link_folders-error valid_keys folders no_links e failed in
          inr (
            e,
            rw failed refl,
            (λ q. ground arith),
            λ (other, sorting).
                let perm = sorting.same in
                let own =
                  All-perm _ (Permᴰ.symm perm) (all_have_key (keys folders) folders (λ k h. h)) in
                let known =
                  All-perm _ perm
                    (parents_known (keys folders) [] other sorting.ordered (λ k h. cc) own) in
                let (graph, linked) =
                  link_folders-total valid_keys folders no_links
                    (parents_are_valid-of valid_keys (keys folders) folders same known) in
                let clash : ok graph ≡ err e = sym linked ∙ failed in cc,
          )
    ]
