-- ===== src/Import/Reached.antt =====
-- The loop of the sort: the keys that it has queued are those of the folders whose parent is sorted.
use seta_im_intern.Prelude.{
  ℕ, zero, suc, ◌+◌, ◌≤◌, ◌≡◌, refl, Bool, true, false, ◌||◌, ◌&&◌, Option, none, some, List, [],
  ◌∷◌, ◌++◌, length, ◌==◌, arith, Bool-cases, inl, inr, All, sym, subst, ◌∙◌, ap, length-append,
}
use seta_im_intern.Import.Dataset.{ImportFolder}
use seta_im_intern.Import.Sort.{Graph, folder_map, decrement, release, roots, sort_queue}
use seta_im_intern.Prelude.{
  has_key, AreDistinct, has_key-append, AreDistinct-append, AreDistinct-left, length-le_of_distinct,
}
use seta_im_intern.Import.Linked.{
  keys, children_of, degree_of, folder_map-key, folder_map-present, folder_map-has,
  children_of_sound, children_of-full, children_of-has, degree_of-eq, AreDistinct-children_of,
}
use mathlib.Core.List.{append_assoc, append-nil}

abbrev pub parent_is_done : List ℕ → Option ℕ → Bool
parent_is_done done none = true
parent_is_done done (some p) = has_key done p

-- Each folder's parent is among `seen` or before it.
abbrev pub AreParentsFirst : List ℕ → List ImportFolder → Type 0
AreParentsFirst seen [] = Unit
AreParentsFirst seen (f ∷ fs) =
    (parent_is_done seen f.parent_key ≡ true) × AreParentsFirst (f.key ∷ seen) fs

AreParentsFirst-append :
    (seen : List ℕ) (fs : List ImportFolder) (f : ImportFolder)
    → AreParentsFirst seen fs
    → (parent_is_done (keys fs) f.parent_key || parent_is_done seen f.parent_key) ≡ true
    → AreParentsFirst seen (fs ++ f ∷ [])
AreParentsFirst-append seen [] f h done = (ground arith, tt)
AreParentsFirst-append seen (g ∷ fs) f h done =
    (h.0, AreParentsFirst-append (g.key ∷ seen) fs f h.1 (ground arith))

All-append :
    (P : ImportFolder → Type 0) (fs : List ImportFolder) (f : ImportFolder)
    → All P fs
    → P f
    → All P (fs ++ f ∷ [])
All-append P [] f h p = (p, tt)
All-append P (g ∷ fs) f h p = (h.0, All-append P fs f h.1 p)

keys-append :
    (fs : List ImportFolder) (f : ImportFolder) → keys (fs ++ f ∷ []) ≡ keys fs ++ f.key ∷ []
keys-append [] f = refl
keys-append (g ∷ fs) f = ap (λ l. g.key ∷ l) (keys-append fs f)

-- Where each child waits for one parent, all of them are queued in their order.
release-queue :
    (cs : List ℕ) (in_degree : ℕ → ℕ) (queue : List ℕ)
    → AreDistinct cs
    → ((k : ℕ) → has_key cs k ≡ true → in_degree k ≡ 1)
    → (release cs (in_degree, queue)).1 ≡ queue ++ cs
unfolding release
release-queue [] in_degree queue d ones = sym (append-nil queue)
release-queue (c ∷ cs) in_degree queue d ones =
    let one : in_degree c ≡ 1 = ones c (ground arith) in
    let test : (in_degree c == 1) ≡ true = ground arith in
    rw (test, release)
      (release-queue cs (decrement c in_degree) (queue ++ c ∷ []) d.1
          (λ k h. ground (arith, ones k))
        ∙ append_assoc queue (c ∷ []) cs)

release-in_degree :
    (cs : List ℕ) (in_degree : ℕ → ℕ) (queue : List ℕ) (k : ℕ)
    → has_key cs k ≡ false
    → (release cs (in_degree, queue)).0 k ≡ in_degree k
unfolding release
release-in_degree [] in_degree queue k h = refl
release-in_degree (c ∷ cs) in_degree queue k h =
    release-in_degree cs (decrement c in_degree) _ k (ground arith) ∙ ground arith

has_key-roots :
    (in_degree : ℕ → ℕ) (fs : List ImportFolder) (k : ℕ)
    → has_key (roots in_degree fs) k ≡ (has_key (keys fs) k && (in_degree k == 0))
unfolding roots
has_key-roots in_degree [] k = refl
has_key-roots in_degree (f ∷ fs) k = ground (arith, has_key-roots in_degree fs k)

AreDistinct-roots :
    (in_degree : ℕ → ℕ) (fs : List ImportFolder)
    → AreDistinct (keys fs)
    → AreDistinct (roots in_degree fs)
unfolding roots
AreDistinct-roots in_degree [] d = tt
AreDistinct-roots in_degree (f ∷ fs) d =
    ground (arith, has_key-roots in_degree fs f.key, AreDistinct-roots in_degree fs d.1)

pub length-keys : (fs : List ImportFolder) → length (keys fs) ≡ length fs
length-keys [] = refl
length-keys (f ∷ fs) = ap suc (length-keys fs)

regroup :
    (xs : List ℕ) (x : ℕ) (ys zs : List ℕ) → (xs ++ x ∷ []) ++ (ys ++ zs) ≡ (xs ++ x ∷ ys) ++ zs
regroup xs x ys zs = simp append_assoc

parent_grown :
    (done : List ℕ) (curr : ℕ) (parent : Option ℕ) (child : Bool)
    → (child ≡ true → parent ≡ some curr)
    → (parent ≡ some curr → child ≡ true)
    → parent_is_done (done ++ curr ∷ []) parent ≡ (parent_is_done done parent || child)
parent_grown done curr none child to from = refl
parent_grown done curr (some q) true to from =
    let e = to refl in ground (arith, has_key-append done (curr ∷ []) q)
parent_grown done curr (some q) false to from = elim (Bool-cases (curr == q)) [
  | inl same ↦ absurd (let f : false ≡ true = from (ground arith) in cc)
  | inr other ↦ ground (arith, has_key-append done (curr ∷ []) q)
]

module _ (folders : List ImportFolder) (graph : Graph) (distinct : AreDistinct (keys folders))
    (linked : (p : ℕ) → graph.children p ≡ children_of folders p) where
  pub record IsReached (queue : List ℕ) (in_degree : ℕ → ℕ) (sorted : List ImportFolder)
      : Type 0 where
    pub once : AreDistinct (keys sorted ++ queue)
    pub known : (k : ℕ) → has_key (keys sorted ++ queue) k ≡ true → has_key (keys folders) k ≡ true
    pub ready :
        (k : ℕ) (f : ImportFolder)
        → folder_map folders k ≡ some f
        → has_key (keys sorted ++ queue) k ≡ parent_is_done (keys sorted) f.parent_key
    pub waiting :
        (k : ℕ) (f : ImportFolder)
        → folder_map folders k ≡ some f
        → parent_is_done (keys sorted) f.parent_key ≡ false
        → in_degree k ≡ 1
    pub ordered : AreParentsFirst [] sorted
    pub given : All (λ f. folder_map folders f.key ≡ some f) sorted

  pub IsReached-roots :
      (in_degree : ℕ → ℕ)
      → ((k : ℕ) → in_degree k ≡ degree_of folders k)
      → IsReached (roots in_degree folders) in_degree []
  IsReached-roots in_degree counted = record {
    once = AreDistinct-roots in_degree folders distinct;
    known = λ k h. ground (arith, has_key-roots in_degree folders k);
    ready = λ k f e. ground (
      arith,
      has_key-roots in_degree folders k,
      counted k,
      degree_of-eq k folders f distinct,
      folder_map-has k folders f e,
    );
    waiting = λ k f e w. ground (arith, counted k, degree_of-eq k folders f distinct);
    ordered = tt;
    given = tt;
  }

  module _ (curr : ℕ) (rest : List ℕ) (in_degree : ℕ → ℕ) (sorted : List ImportFolder)
      (s : IsReached (curr ∷ rest) in_degree sorted) where
    current : (f : ImportFolder) × (folder_map folders curr ≡ some f)
    current =
        folder_map-present curr folders
          (s.known curr (ground (arith, has_key-append (keys sorted) (curr ∷ rest) curr)))

    abbrev reached : List ℕ
    reached = keys sorted ++ curr ∷ rest

    unsorted : has_key (keys sorted) curr ≡ false
    unsorted = AreDistinct-left (keys sorted) curr rest s.once

    child_is_new : (k : ℕ) → has_key (children_of folders curr) k ≡ true → has_key reached k ≡ false
    child_is_new k h =
        let (g, here, parent) = children_of_sound k folders curr distinct h in
        s.ready k g here ∙ rw parent unsorted

    child_waits : (k : ℕ) → has_key (children_of folders curr) k ≡ true → in_degree k ≡ 1
    child_waits k h =
        let (g, here, parent) = children_of_sound k folders curr distinct h in
        s.waiting k g here (rw parent unsorted)

    new_queue :
        (release (graph.children curr) (in_degree, rest)).1 ≡ rest ++ children_of folders curr
    new_queue = rw (linked curr) (
        release-queue (children_of folders curr) in_degree rest
          (AreDistinct-children_of folders curr distinct) child_waits)

    new_degree :
        (k : ℕ)
        → has_key (children_of folders curr) k ≡ false
        → (release (graph.children curr) (in_degree, rest)).0 k ≡ in_degree k
    new_degree k h =
        rw (linked curr) (release-in_degree (children_of folders curr) in_degree rest k h)

    all_reached :
        (f : ImportFolder)
        → f.key ≡ curr
        → keys (sorted ++ f ∷ []) ++ (rest ++ children_of folders curr)
          ≡ reached ++ children_of folders curr
    all_reached f e =
        rw (keys-append sorted f, e) (regroup (keys sorted) curr rest (children_of folders curr))

    is_child :
        (k : ℕ) (g : ImportFolder)
        → folder_map folders k ≡ some g
        → parent_is_done (keys sorted ++ curr ∷ []) g.parent_key
          ≡ (parent_is_done (keys sorted) g.parent_key || has_key (children_of folders curr) k)
    is_child k g here =
        parent_grown (keys sorted) curr g.parent_key (has_key (children_of folders curr) k)
          (λ h.
            let (g', here', parent) = children_of_sound k folders curr distinct h in ground arith)
          (λ parent. children_of-full k folders curr g here parent)

    IsReached-round :
        (f : ImportFolder)
        → folder_map folders curr ≡ some f
        → let x = release (graph.children curr) (in_degree, rest) in
          IsReached x.1 x.0 (sorted ++ f ∷ [])
    IsReached-round f e =
        let named = folder_map-key curr folders f e in
        let cs = children_of folders curr in
        let all = all_reached f named in
        let done : keys (sorted ++ f ∷ []) ≡ keys sorted ++ curr ∷ [] =
          keys-append sorted f ∙ ap (λ c. keys sorted ++ c ∷ []) named in
        rw new_queue (record {
          once = rw all (
              AreDistinct-append reached cs s.once (AreDistinct-children_of folders curr distinct)
                (λ k h. ground (arith, child_is_new k)));
          known = λ k. rw all (λ h.
              ground
                (arith, has_key-append reached cs k, s.known k, children_of-has k folders curr));
          ready = λ k g here.
              rw (all, done)
                (has_key-append reached cs k
                  ∙ ap (λ b. b || has_key cs k) (s.ready k g here)
                  ∙ sym (is_child k g here));
          waiting = λ k g here w.
              let w' = rw (done, is_child k g here) at w in
              new_degree k (ground arith) ∙ s.waiting k g here (ground arith);
          ordered =
              AreParentsFirst-append [] sorted f s.ordered
                (ground (arith, s.ready curr f e, has_key-append (keys sorted) (curr ∷ rest) curr));
          given =
              All-append _ sorted f s.given
                (subst (λ c. folder_map folders c ≡ some f) (sym named) e);
        })

  bounded :
      (queue : List ℕ) (in_degree : ℕ → ℕ) (sorted : List ImportFolder)
      → IsReached queue in_degree sorted
      → length sorted + length queue ≤ length folders
  bounded queue in_degree sorted s = omega (
    arith,
    length-keys sorted,
    length-keys folders,
    length-append (keys sorted) queue,
    length-le_of_distinct (keys sorted ++ queue) (keys folders) s.once s.known,
  )

  -- A round for each folder is enough, and at the end nothing waits in the queue.
  pub sort_queue-IsReached :
      (fuel : ℕ) (queue : List ℕ) (in_degree : ℕ → ℕ) (sorted : List ImportFolder)
      → length sorted + fuel ≡ length folders
      → IsReached queue in_degree sorted
      → (final : List ImportFolder) × (in_degree' : ℕ → ℕ) × (sort_queue folders graph fuel queue
            in_degree sorted
          ≡ some final)
        × IsReached [] in_degree' final
  unfolding sort_queue
  sort_queue-IsReached fuel [] in_degree sorted m s = (sorted, in_degree, refl, s)
  sort_queue-IsReached zero (curr ∷ rest) in_degree sorted m s =
      absurd (omega (arith, bounded (curr ∷ rest) in_degree sorted s))
  sort_queue-IsReached (suc fuel) (curr ∷ rest) in_degree sorted m s =
      let (f, e) = current curr rest in_degree sorted s in
      let x = release (graph.children curr) (in_degree, rest) in
      rw (e, sort_queue)
        (sort_queue-IsReached fuel x.1 x.0 (sorted ++ f ∷ [])
          (omega (arith, length-append sorted (f ∷ [])))
          (IsReached-round curr rest in_degree sorted s f e))
