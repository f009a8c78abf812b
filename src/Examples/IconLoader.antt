-- ===== src/Examples/IconLoader.antt =====
-- The icon loader with two callers of one URL and a caller of another.
use open_madt.Prelude.{
  ℕ, Option, none, some, List, [], ◌∷◌, Bytes, codes, ◌≡◌, arith, refl, All, ◌<◌, equal, less,
}
use open_madt.Prelude.Map.{lookup, insert}
use open_madt.IconLoader.{IconLoader, new_loader, load_icon, finished}
use open_madt.IconLoader.Counts.{times, asked_for, called_for}
use open_madt.IconLoader.Fair.{Shows}
use open_madt.IconLoader.Steps.{Runs, begins, asks, replies}
use open_madt.IconLoader.Served.{answer_all, Runs-Served}

abbrev home : Bytes
home = codes "http://a/i.png"

abbrev news : Bytes
news = codes "http://b/i.png"

abbrev asked : List (Option Bytes × ℕ)
asked = (some home, 1) ∷ (none, 2) ∷ (some news, 3) ∷ (some home, 4) ∷ []

abbrev icons : Bytes → ℕ
icons key = 7

abbrev loader : IconLoader ℕ
loader = finished news 9 (
    load_icon 0 (some home) 4
      (load_icon 0 (some news) 3 (load_icon 0 none 2 (load_icon 0 (some home) 1 new_loader))))

abbrev before : IconLoader ℕ
before =
    load_icon 0 (some home) 4
      (load_icon 0 (some news) 3 (load_icon 0 none 2 (load_icon 0 (some home) 1 new_loader)))

one_outstanding : times news before.requests ≡ 1
unfolding load_icon times lookup insert equal less
one_outstanding = refl

outstanding : 0 < times news before.requests
outstanding = omega (arith, one_outstanding)

run : Runs 0 asked loader
run = replies asked before news 9 outstanding (
    asks _ _ (some home) 4
      (asks _ _ (some news) 3 (asks _ _ none 2 (asks [] new_loader (some home) 1 begins))))

Runs-Served_example :
    ((answer_all icons loader.requests loader).requests ≡ [])
    × ((key : Bytes)
        → called_for key (answer_all icons loader.requests loader).deliveries ≡ asked_for key asked)
    × All
        (Shows 0 (answer_all icons loader.requests loader).cache)
        (answer_all icons loader.requests loader).deliveries
Runs-Served_example = Runs-Served 0 icons asked loader run
