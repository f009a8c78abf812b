-- ===== src/Browser/Bar/Moves.antt =====
-- The tabs that `syncTabOrder` moves (madt-server/Browser.cpp): it puts the views in any order that holds
-- the same views.
use open_madt.Prelude.{
  ℕ, zero, suc, ◌+◌, ◌≤◌, none, some, List, [], ◌∷◌, ◌++◌, Bytes, ◌≡◌, refl, ap, arith, equal,
  equal_iff, equal_refl, Bool-cases, Option-cases, inl, inr, map, length, length-append, get_elem?,
  ◌==◌, if◌then◌else◌, ◌∙◌,
}
use mathlib.Core.List.{append_assoc}
use open_madt.Prelude.Map.{bytes_key}
use open_madt.Browser.{Pages}
use open_madt.Browser.Bar.{
  index_of, remove_at, insert_at, move_at, TabWidget, view_of, place_tab, place_tabs,
}

-- How often a view is in a list.
abbrev pub count : Bytes → List Bytes → ℕ
count v [] = 0
count v (w ∷ ws) = (if equal w v then 1 else 0) + count v ws

abbrev pub SameItems : List Bytes → List Bytes → Type 0
SameItems vs ws = (v : Bytes) → count v vs ≡ count v ws

-- A view that is there, with the list split at it.
record Found (v : Bytes) (vs : List Bytes) : Type 0 where
  index : ℕ
  at : index_of v vs ≡ some index
  elem : get_elem? vs index ≡ some v
  rest : (w : Bytes) → count w vs ≡ (if equal v w then 1 else 0) + count w (remove_at index vs)

find : (v : Bytes) (vs : List Bytes) (n : ℕ) → count v vs ≡ suc n → Found v vs
find v [] n h = absurd (omega arith)
find v (w ∷ ws) n h = elim (Bool-cases (equal w v)) [
  | inl e ↦
      let same : w ≡ v = (equal_iff w v).0 e in
      record { index = 0; at = rw e; elem = ap some same; rest = λ u. rw same refl }
  | inr e ↦
      let f = find v ws n (ground arith) in
      record {
        index = suc f.index;
        at = rw (e, f.at) refl;
        elem = f.elem;
        rest = λ u. omega (arith, f.rest u);
      }
]

-- The functions on a list of which the first part does not hold the view: they act on the rest.
index_of-skip :
    (v : Bytes) (before rest : List Bytes) (j k : ℕ)
    → count v before ≡ 0
    → index_of v rest ≡ some j
    → k ≡ length before + j
    → index_of v (before ++ rest) ≡ some k
index_of-skip v [] rest j k h e q = let same : k ≡ j = omega arith in rw same e
index_of-skip v (w ∷ ws) rest j zero h e q = absurd (omega arith)
index_of-skip v (w ∷ ws) rest j (suc k) h e q = ground (arith, index_of-skip v ws rest j k)

get_elem?-skip :
    (before rest : List Bytes) (j k : ℕ)
    → k ≡ length before + j
    → get_elem? (before ++ rest) k ≡ get_elem? rest j
get_elem?-skip [] rest j k q = let same : k ≡ j = omega arith in rw same refl
get_elem?-skip (w ∷ ws) rest j zero q = absurd (omega arith)
get_elem?-skip (w ∷ ws) rest j (suc k) q = get_elem?-skip ws rest j k (omega arith)

remove_at-skip :
    (before rest : List Bytes) (j k : ℕ)
    → k ≡ length before + j
    → remove_at k (before ++ rest) ≡ before ++ remove_at j rest
remove_at-skip [] rest j k q = let same : k ≡ j = omega arith in rw same refl
remove_at-skip (w ∷ ws) rest j zero q = absurd (omega arith)
remove_at-skip (w ∷ ws) rest j (suc k) q =
    ap (λ vs. w ∷ vs) (remove_at-skip ws rest j k (omega arith))

insert_at-skip :
    (v : Bytes) (before rest : List Bytes)
    → insert_at (length before) v (before ++ rest) ≡ before ++ v ∷ rest
insert_at-skip v [] rest = refl
insert_at-skip v (w ∷ ws) rest = ap (λ vs. w ∷ vs) (insert_at-skip v ws rest)

remove_at-zero : (v : Bytes) (vs : List Bytes) → get_elem? vs 0 ≡ some v → vs ≡ v ∷ remove_at 0 vs
remove_at-zero v [] h = absurd cc
remove_at-zero v (w ∷ ws) h = cc

-- One round of the loop on the list of views.
abbrev pub place_view : ℕ → Bytes → List Bytes → List Bytes
place_view target v vs = elim (index_of v vs) [
  | none ↦ vs
  | some current ↦ if current == target then vs else move_at current target vs
]

place_view-Found :
    (v : Bytes) (before rest : List Bytes) (f : Found v rest)
    → count v before ≡ 0
    → place_view (length before) v (before ++ rest) ≡ before ++ v ∷ remove_at f.index rest
place_view-Found v before rest f h =
    let k : ℕ = length before + f.index in
    let at = index_of-skip v before rest f.index k h f.at refl in
    let elem = get_elem?-skip before rest f.index k refl ∙ f.elem in
    elim (Bool-cases (k == length before)) [
      | inl e ↦
          let first : f.index ≡ 0 = ground arith in
          let elem' : get_elem? rest 0 ≡ some v = rw (← first) f.elem in
          rw (at, place_view, e, first) (ap (λ vs. before ++ vs) (remove_at-zero v rest elem'))
      | inr e ↦
          rw (at, place_view, e, elem, move_at, remove_at-skip before rest f.index k refl)
            (insert_at-skip v before (remove_at f.index rest))
    ]

place_views : ℕ → Pages → List Bytes → List Bytes
place_views i [] vs = vs
place_views i ((id, page) ∷ pages) vs = place_views (suc i) pages (place_view i id vs)

pub count-append : (v : Bytes) (vs ws : List Bytes) → count v (vs ++ ws) ≡ count v vs + count v ws
count-append v [] ws = omega arith
count-append v (u ∷ vs) ws = omega (arith, count-append v vs ws)

count-none : (vs : List Bytes) → ((v : Bytes) → count v vs ≡ 0) → vs ≡ []
count-none [] h = refl
count-none (v ∷ vs) h = let k = h v in absurd (ground (arith, equal_refl v))

-- The loop puts the views of the pages behind what it has placed, in their order.
place_views-eq :
    (pages : Pages) (before rest : List Bytes)
    → SameItems rest (map view_of pages)
    → ((v : Bytes) → count v before + count v rest ≤ 1)
    → place_views (length before) pages (before ++ rest) ≡ before ++ map view_of pages
unfolding place_views
place_views-eq [] before rest same apart = ap (λ vs. before ++ vs) (count-none rest same)
place_views-eq ((id, page) ∷ pages) before rest same apart =
    let here = same id in
    let f = find id rest (count id (map view_of pages)) (ground (arith, equal_refl id)) in
    let alone : count id before ≡ 0 = let k = apart id in ground (arith, equal_refl id) in
    let moved = place_view-Found id before rest f alone in
    let rest' = remove_at f.index rest in
    let same' : SameItems rest' (map view_of pages) = λ v. omega (arith, same v, f.rest v) in
    let apart' : (v : Bytes) → count v (before ++ id ∷ []) + count v rest' ≤ 1 =
      λ v. ground (arith, apart v, f.rest v, count-append v before (id ∷ [])) in
    let next : length (before ++ id ∷ []) ≡ suc (length before) =
      omega (arith, length-append before (id ∷ [])) in
    let ih = place_views-eq pages (before ++ id ∷ []) rest' same' apart' in
    rw (moved)
      (rw (next, append_assoc before (id ∷ []) rest', append_assoc before (id ∷ []) _) at ih)

-- The loop of `syncTabOrder` does the same to the views of the tabs.
module _ (qt : TabWidget) where
  open qt use {Tabs, views, index_law, move_law}

  place_tab-views :
      (i : ℕ) (v : Bytes) (t : Tabs) → views (place_tab qt i v t) ≡ place_view i v (views t)
  unfolding place_tab
  place_tab-views i v t = elim (Option-cases (index_of v (views t))) [
    | inl e ↦ rw (index_law v t ∙ e, e, place_tab, place_view) refl
    | inr (n, e) ↦ elim (Bool-cases (n == i)) [
      | inl q ↦ rw (index_law v t ∙ e, place_tab, place_view, e, q) refl
      | inr q ↦ rw (index_law v t ∙ e, place_tab, place_view, e, q) (move_law n i t)
    ]
  ]

  place_tabs-views :
      (i : ℕ) (pages : Pages) (t : Tabs)
      → views (place_tabs qt i pages t) ≡ place_views i pages (views t)
  unfolding place_tabs place_views
  place_tabs-views i [] t = refl
  place_tabs-views i ((id, page) ∷ pages) t =
      place_tabs-views (suc i) pages (place_tab qt i id t)
      ∙ ap (place_views (suc i) pages) (place_tab-views i id t)

  -- From tabs with the views of the pages, each once, to tabs in the order of the pages.
  pub place_tabs-eq :
      (pages : Pages) (t : Tabs)
      → SameItems (views t) (map view_of pages)
      → ((v : Bytes) → count v (views t) ≤ 1)
      → views (place_tabs qt 0 pages t) ≡ map view_of pages
  place_tabs-eq pages t same once =
      place_tabs-views 0 pages t
      ∙ place_views-eq pages [] (views t) same (λ v. omega (arith, once v))
