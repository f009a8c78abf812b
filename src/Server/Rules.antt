-- ===== src/Server/Rules.antt =====
-- Rules for the actions of a handler, one for each way to build one. `Keeps`: a property of the world
-- survives, however the action ends. `Replies`: an action that ends without an exception has written
-- exactly one response, to its own connection, and one that throws has written none.
use open_madt.Prelude.{
  ℕ, Bool, true, false, List, [], ◌∷◌, ◌++◌, ◌≡◌, refl, subst, ◌∙◌, if◌then◌else◌,
}
use open_madt.Prelude.Int.{ℤ}
use open_madt.Json.Access.{Outcome}
use open_madt.Gui.{GuiCall, GuiLib}
use open_madt.Server.State.{
  Server, World, M, lift, gets, modify, send_response, request_exit, gui_call, continue, ◌>>=◌,
  ◌>>◌,
}

module _ {J A : Type 0} where
  -- What an outcome says of the responses before and after.
  abbrev pub Wrote : ℕ → List (ℕ × J) → Outcome A → List (ℕ × J) → Type 0
  Wrote bev before (Outcome.ok a) after = (r : J) × (after ≡ before ++ (bev, r) ∷ [])
  Wrote bev before Outcome.throws after = after ≡ before
  Wrote bev before Outcome.undefined after = after ≡ before

module _ {J G A : Type 0} where
  pub record Keeps (P : World J G → Type 0) (m : M J G A) : Type 0 where
    pub at : (w : World J G) → P w → P (m w).1

  -- Nothing is written.
  pub record Silent (m : M J G A) : Type 0 where
    pub at : (w : World J G) → (m w).1.sent ≡ w.sent

  pub record Replies (bev : ℕ) (m : M J G A) : Type 0 where
    pub at : (w : World J G) → Wrote bev w.sent (m w).0 (m w).1.sent

module _ {J G A : Type 0} (P : World J G → Type 0) where
  pub Keeps-lift : (r : Outcome A) → Keeps P (lift r)
  unfolding lift
  Keeps-lift r = record { at = λ w h. h }

  pub Keeps-gets : (f : Server J → A) → Keeps P (gets f)
  unfolding gets
  Keeps-gets f = record { at = λ w h. h }

  pub Keeps-if : (b : Bool) (m n : M J G A) → Keeps P m → Keeps P n → Keeps P (if b then m else n)
  Keeps-if true m n km kn = km
  Keeps-if false m n km kn = kn

module _ {J G A B : Type 0} (P : World J G → Type 0) where
  keeps-continue :
      (f : A → M J G B) (r : Outcome A) (w : World J G)
      → ((a : A) → Keeps P (f a))
      → P w
      → P (continue r f w).1
  keeps-continue f (Outcome.ok a) w kf h = (kf a).at w h
  keeps-continue f Outcome.throws w kf h = h
  keeps-continue f Outcome.undefined w kf h = h

  pub Keeps-bind :
      (f : A → M J G B) (m : M J G A) → ((a : A) → Keeps P (f a)) → Keeps P m → Keeps P (m >>= f)
  unfolding ◌>>=◌
  Keeps-bind f m rest first = record {
    at = λ w h. keeps-continue f (m w).0 (m w).1 rest (first.at w h);
  }

-- An action that writes nothing.
module _ {J G A : Type 0} where
  pub Silent-lift : (r : Outcome A) → Silent {J = J} {G = G} (lift r)
  unfolding lift
  Silent-lift r = record { at = λ w. refl }

  pub Silent-gets : (f : Server J → A) → Silent {J = J} {G = G} (gets f)
  unfolding gets
  Silent-gets f = record { at = λ w. refl }

module _ {J G : Type 0} where
  pub Silent-modify : (f : Server J → Server J) → Silent {J = J} {G = G} (modify f)
  unfolding modify
  Silent-modify f = record { at = λ w. refl }

  pub Silent-gui_call : (gui : GuiLib J G) (c : GuiCall J) → Silent (gui_call gui c)
  unfolding gui_call
  Silent-gui_call gui c = record { at = λ w. refl }

  pub Replies-send_response :
      (bev : ℕ) (response : J) → Replies {J = J} {G = G} bev (send_response bev response)
  unfolding send_response
  Replies-send_response bev response = record { at = λ w. (response, refl) }

  -- Telling the process to stop comes behind the response.
  pub Replies-request_exit :
      (bev : ℕ) (response : J) (code : ℤ)
      → Replies {J = J} {G = G} bev (send_response bev response >> request_exit code)
  unfolding send_response request_exit ◌>>=◌
  Replies-request_exit bev response code = record { at = λ w. (response, refl) }

module _ {J G A : Type 0} (bev : ℕ) where
  pub Replies-if :
      (b : Bool) (m n : M J G A) → Replies bev m → Replies bev n → Replies bev (if b then m else n)
  Replies-if true m n rm rn = rm
  Replies-if false m n rm rn = rn

module _ {J G A B : Type 0} where
  Silent-continue :
      (f : A → M J G B) (r : Outcome A) (w : World J G)
      → ((a : A) → Silent (f a))
      → (continue r f w).1.sent ≡ w.sent
  Silent-continue f (Outcome.ok a) w sf = (sf a).at w
  Silent-continue f Outcome.throws w sf = refl
  Silent-continue f Outcome.undefined w sf = refl

  pub Silent-bind :
      (m : M J G A) (f : A → M J G B) → Silent m → ((a : A) → Silent (f a)) → Silent (m >>= f)
  unfolding ◌>>=◌
  Silent-bind m f sm sf = record {
    at = λ w. let (r, w') = m w in Silent-continue f r w' sf ∙ sm.at w;
  }

  replies-continue :
      (bev : ℕ) (f : A → M J G B) (r : Outcome A) (w : World J G)
      → ((a : A) → Replies bev (f a))
      → Wrote bev w.sent (continue r f w).0 (continue r f w).1.sent
  replies-continue bev f (Outcome.ok a) w rf = (rf a).at w
  replies-continue bev f Outcome.throws w rf = refl
  replies-continue bev f Outcome.undefined w rf = refl

  -- What comes before the response is silent.
  pub Replies-bind :
      (bev : ℕ) (m : M J G A) (f : A → M J G B)
      → Silent m
      → ((a : A) → Replies bev (f a))
      → Replies bev (m >>= f)
  unfolding ◌>>=◌
  Replies-bind bev m f sm rf = record {
    at = λ w.
        let (r, w') = m w in
        subst (λ before. Wrote bev before (continue r f w').0 (continue r f w').1.sent) (sm.at w)
          (replies-continue bev f r w' rf);
  }

pub ruleset keeps_rules = (Keeps-lift, Keeps-gets, Keeps-if, Keeps-bind)

pub ruleset reply_rules = (
  Silent-lift, Silent-gets, Silent-modify, Silent-gui_call, Silent-bind, Replies-send_response,
  Replies-request_exit, Replies-if, Replies-bind,
)
