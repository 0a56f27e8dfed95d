-- ===== src/Grpc.antt =====
-- The interceptor that logs each call (pkg/rclone/utils.go).
use csi_driver_rclone.Prelude.{
  ℕ, ◌≡◌, refl, ◌||◌, List, [], ◌∷◌, ◌++◌, Result, ok, err, if◌then◌else◌,
}
use csi_driver_rclone.Text.{Text, codes, text_eq}
use csi_driver_rclone.Status.{Status}

unfoldable pub get_log_level : Text → ℕ
get_log_level method =
    if text_eq method (codes "/csi.v1.Identity/Probe")
      || text_eq method (codes "/csi.v1.Node/NodeGetCapabilities")
      || text_eq method (codes "/csi.v1.Node/NodeGetVolumeStats")
    then 8
    else 2

pub data LogLine : Type 0 where
  info : (level : ℕ) → (line : Text) → LogLine
  failure : (line : Text) → LogLine

-- `protosanitizer.StripSecrets`, printed, and how an error is printed.
pub record Printers (Req Resp : Type 0) : Type 0 where
  pub strip_request : Req → Text
  pub strip_response : Resp → Text
  pub show_error : Status → Text

module _ {Req Resp : Type 0} (p : Printers Req Resp) where
  abbrev answer_line : ℕ → Result Status Resp → LogLine
  answer_line level (ok resp) = info level (codes "GRPC response: " ++ p.strip_response resp)
  answer_line level (err e) = failure (codes "GRPC error: " ++ p.show_error e)

  -- The answer, and the lines that are logged.
  unfoldable pub log_grpc :
      Text → (Req → Result Status Resp) → Req → Result Status Resp × List LogLine
  unfolding get_log_level
  log_grpc method handler req =
      let level = get_log_level method in
      let answer = handler req in
      (
        answer,
        info level (codes "GRPC call: " ++ method)
            ∷ info level (codes "GRPC request: " ++ p.strip_request req)
            ∷ answer_line level answer
            ∷ [],
      )

  -- Two answers that are printed alike: the secrets of a response are not printed.
  abbrev pub PrintsAlike : Result Status Resp → Result Status Resp → Type 0
  PrintsAlike (ok a) (ok b) = p.strip_response a ≡ p.strip_response b
  PrintsAlike (err a) (err b) = p.show_error a ≡ p.show_error b
  PrintsAlike (ok a) (err b) = ⊥
  PrintsAlike (err a) (ok b) = ⊥

  answer_line_eq :
      (level : ℕ) (a b : Result Status Resp)
      → PrintsAlike a b
      → answer_line level a ≡ answer_line level b
  answer_line_eq level (ok a) (ok b) h = rw h refl
  answer_line_eq level (err a) (err b) h = rw h refl
  answer_line_eq level (ok a) (err b) h = absurd h
  answer_line_eq level (err a) (ok b) h = absurd h

  -- The interceptor gives the answer of the handler; and of two requests that are alike without
  -- their secrets, with answers that are alike without theirs, it logs the same.
  pub log_grpc_lem :
      (method : Text) (handler : Req → Result Status Resp) (req req' : Req)
      → p.strip_request req ≡ p.strip_request req'
      → PrintsAlike (handler req) (handler req')
      → ((log_grpc method handler req).0 ≡ handler req)
        × ((log_grpc method handler req).1 ≡ (log_grpc method handler req').1)
  unfolding log_grpc
  log_grpc_lem method handler req req' e h =
      (refl, rw (e, answer_line_eq (get_log_level method) (handler req) (handler req') h) refl)
