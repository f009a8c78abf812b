-- ===== src/Server/Stream.antt =====
-- A stream of requests on one connection: the loop ends, and the responses are as many as the requests.
use mathlib.Core.List.{append-nil, append_assoc}
use open_madt.Prelude.{
  ℕ, zero, suc, ◌<◌, Option, none, some, List, [], ◌∷◌, ◌++◌, Bytes, ◌≡◌, ◌≢◌, ◌⊎◌, inl, inr, refl,
  ap, ◌∙◌, arith, length, Option-cases, map, subst, sym,
}
use open_madt.Json.{JsonLib}
use open_madt.Json.Access.{Outcome}
use open_madt.Crypto.{CryptoLib}
use open_madt.Framing.{extract_single_json_object}
use open_madt.Framing.Progress.{length-extract_lt}
use open_madt.Gui.{GuiLib}
use open_madt.Server.State.{World, Moment, send_response, code_response, mtsrc_bad_request}
use open_madt.Server.Dispatch.{
  attempt, recover, serve_text, serve_buffer, buffer_with, set_buffer, request,
}
use open_madt.Server.Rules.{Wrote, Replies, reply_rules}
use open_madt.Server.Responses.{Replies-dispatch}

-- The framing alone: the request texts in a buffer, in order.
pub frames : ℕ → Bytes → List Bytes
frames zero buffer = []
frames (suc fuel) buffer =
    let (taken, left) = extract_single_json_object buffer in
    elim taken [ none ↦ [] | some text ↦ text ∷ frames fuel left ]

pub Outcome-cases :
    (r : Outcome (Unit {0}))
    → ((u : Unit {0}) × (r ≡ Outcome.ok u)) ⊎ ((r ≡ Outcome.throws) ⊎ (r ≡ Outcome.undefined))
Outcome-cases (Outcome.ok u) = inl (u, refl)
Outcome-cases Outcome.throws = inr (inl refl)
Outcome-cases Outcome.undefined = inr (inr refl)

module _ {J G : Type 0} (lib : JsonLib J) (crypto : CryptoLib) (gui : GuiLib J G)
    (swvers : Bytes) where
  Replies-attempt :
      (bev : ℕ) (m : Moment) (text : Bytes) → Replies bev (attempt lib crypto gui swvers bev m text)
  unfolding attempt
  Replies-attempt bev m text = search (reply_rules, Replies-dispatch) depth 8

  -- What serving one request text says of its outcome and the responses before and after.
  abbrev pub AnsweredOnce : ℕ → List (ℕ × J) → Outcome (Unit {0}) → List (ℕ × J) → Type 0
  AnsweredOnce bev before (Outcome.ok u) after = (r : J) × (after ≡ before ++ (bev, r) ∷ [])
  AnsweredOnce bev before Outcome.throws after = ⊥
  AnsweredOnce bev before Outcome.undefined after = after ≡ before

  recover-AnsweredOnce :
      (bev : ℕ) (before : List (ℕ × J)) (r : Outcome (Unit {0})) (w : World J G)
      → Wrote bev before r w.sent
      → AnsweredOnce bev before
          (recover lib crypto gui swvers bev (r, w)).0
          (recover lib crypto gui swvers bev (r, w)).1.sent
  unfolding recover send_response
  recover-AnsweredOnce bev before (Outcome.ok u) w h = h
  recover-AnsweredOnce bev before Outcome.throws w h =
      (response, ap (λ l. l ++ (bev, response) ∷ []) h)
    where
      response : J
      response = code_response lib mtsrc_bad_request
  recover-AnsweredOnce bev before Outcome.undefined w h = h

  -- A request text, whatever it holds, gets exactly one response, on its own connection: from its
  -- handler, or from the `catch` block. No exception leaves the loop. The one other end is undefined
  -- behaviour, before anything is written.
  pub serve_text-AnsweredOnce :
      (bev : ℕ) (m : Moment) (text : Bytes) (w : World J G)
      → AnsweredOnce bev w.sent
          (serve_text lib crypto gui swvers bev m text w).0
          (serve_text lib crypto gui swvers bev m text w).1.sent
  unfolding serve_text
  serve_text-AnsweredOnce bev m text w =
      let (r, w') = attempt lib crypto gui swvers bev m text w in
      recover-AnsweredOnce bev w.sent r w' ((Replies-attempt bev m text).at w)

  -- A round that takes a text leaves a shorter buffer.
  round_shorter :
      (buffer text : Bytes)
      → (extract_single_json_object buffer).0 ≡ some text
      → length (extract_single_json_object buffer).1 < length buffer
  round_shorter buffer text e =
      length-extract_lt buffer text (extract_single_json_object buffer).1
        (λ i. (e i, (extract_single_json_object buffer).1))

  -- The state of a round once the buffer is stored, and what the request text leads to.
  abbrev served : (ℕ → Moment) → ℕ → ℕ → Bytes → Bytes → World J G → Outcome (Unit {0}) × World J G
  served moments round bev buffer text w =
      serve_text lib crypto gui swvers bev (moments round) text
        (set_buffer lib crypto gui swvers bev (extract_single_json_object buffer).1 w)

  -- The loop ends: with more fuel than the buffer has bytes it does not run out.
  serve_buffer-ne-none :
      (fuel : ℕ) (moments : ℕ → Moment) (round bev : ℕ) (buffer : Bytes) (w : World J G)
      → length buffer < fuel
      → serve_buffer lib crypto gui swvers fuel moments round bev buffer w ≢ none
  unfolding serve_buffer
  serve_buffer-ne-none zero moments round bev buffer w h = elim h [ ]
  serve_buffer-ne-none (suc fuel) moments round bev buffer w h =
      elim (Option-cases (extract_single_json_object buffer).0) [
        | inl e ↦ rw (e, serve_buffer) (λ k. cc)
        | inr (text, e) ↦ elim (Outcome-cases (served moments round bev buffer text w).0) [
          | inl (u, o) ↦
              rw (e, serve_buffer)
                (rw (o, serve_buffer)
                  (serve_buffer-ne-none fuel moments (suc round) bev _ _
                    (omega (arith, round_shorter buffer text e))))
          | inr (inl o) ↦ rw (e, serve_buffer) (rw (o, serve_buffer) (λ k. cc))
          | inr (inr o) ↦ rw (e, serve_buffer) (rw (o, serve_buffer) (λ k. cc))
        ]
      ]

  -- `request` always comes to an end: its loop never runs out of rounds.
  pub request-ne-none :
      (moments : ℕ → Moment) (bev : ℕ) (bytes : Bytes) (w : World J G)
      → request lib crypto gui swvers moments bev bytes w ≢ none
  unfolding request
  request-ne-none moments bev bytes w =
      let buffer = buffer_with lib crypto gui swvers bev bytes w.server in
      serve_buffer-ne-none (suc (length buffer)) moments 0 bev buffer _ (omega arith)

  -- The responses of one connection, as they are written.
  abbrev pub addressed : ℕ → List J → List (ℕ × J)
  addressed bev rs = map (λ r. (bev, r)) rs

  abbrev sent_of : List (ℕ × J) → Option (Outcome (Unit {0}) × World J G) → List (ℕ × J)
  sent_of otherwise none = otherwise
  sent_of otherwise (some (r, w)) = w.sent

  module _ (moments : ℕ → Moment) (bev : ℕ) where
    -- The loop with its end: as many responses, in one row, as the framing has texts.
    abbrev Answered : ℕ → Bytes → World J G → World J G → Type 0
    Answered fuel buffer w w' =
        (rs : List J) × (w'.sent ≡ w.sent ++ addressed bev rs)
        × (length rs ≡ length (frames fuel buffer))

    serve_buffer-Answered :
        (fuel round : ℕ) (buffer : Bytes) (w w' : World J G)
        → serve_buffer lib crypto gui swvers fuel moments round bev buffer w
          ≡ some (Outcome.ok tt, w')
        → Answered fuel buffer w w'
    unfolding serve_buffer frames
    serve_buffer-Answered zero round buffer w w' h = absurd (cc)
    serve_buffer-Answered (suc fuel) round buffer w w' h =
        elim (Option-cases (extract_single_json_object buffer).0) [
          | inl e ↦
              let k = rw (e, serve_buffer) at h in
              ([], sym (ap (sent_of []) k) ∙ sym (append-nil w.sent), rw (e, frames))
          | inr (text, e) ↦ elim (Outcome-cases (served moments round bev buffer text w).0) [
            | inl (u, o) ↦
                let (r, one) =
                  subst
                    (λ q. AnsweredOnce bev w.sent q (served moments round bev buffer text w).1.sent)
                    o (serve_text-AnsweredOnce bev (moments round) text _) in
                let (rs, more, count) =
                  serve_buffer-Answered fuel (suc round) (extract_single_json_object buffer).1
                    (served moments round bev buffer text w).1 w'
                    (rw (o, serve_buffer) at (rw (e, serve_buffer) at h)) in
                (
                  r ∷ rs,
                  more
                      ∙ ap (λ l. l ++ addressed bev rs) one
                      ∙ append_assoc w.sent ((bev, r) ∷ []) (addressed bev rs),
                  rw (e, frames) (ap suc count),
                )
            | inr (inl o) ↦
                let k = rw (o, serve_buffer) at (rw (e, serve_buffer) at h) in absurd (cc)
            | inr (inr o) ↦
                let k = rw (o, serve_buffer) at (rw (e, serve_buffer) at h) in absurd (cc)
          ]
        ]

    -- When bytes arrive and no request among them runs into undefined behaviour, the responses that
    -- are written, all to this connection and behind the earlier ones, are as many as the request
    -- texts that the framing finds in the buffer and the new bytes.
    pub request-Answered :
        (bytes : Bytes) (w w' : World J G)
        → request lib crypto gui swvers moments bev bytes w ≡ some (Outcome.ok tt, w')
        → (rs : List J) × (w'.sent ≡ w.sent ++ addressed bev rs)
          × (length rs
              ≡ length (
                  frames
                    (suc (length (buffer_with lib crypto gui swvers bev bytes w.server)))
                    (buffer_with lib crypto gui swvers bev bytes w.server)))
    unfolding request
    request-Answered bytes w w' h =
        let buffer = buffer_with lib crypto gui swvers bev bytes w.server in
        serve_buffer-Answered (suc (length buffer)) 0 buffer _ w' h
