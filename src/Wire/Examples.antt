-- ===== src/Wire/Examples.antt =====
-- The framing theorems at concrete payloads.
use claude_cowork_service.Base.{arith, codes, length, ok, refl, ◌++◌, ◌<◌, ◌∷◌, ◌≡◌, ◌≤◌}
use claude_cowork_service.Wire.{
  max_message, put_uint32, read_full, read_message, uint32, write_message,
}
use claude_cowork_service.Wire.Frames.{read_message-write_message, read_message_exact}

frame_of_two : write_message (codes "{}") ≡ 0 ∷ (0 ∷ (0 ∷ (2 ∷ codes "{}")))
unfolding write_message put_uint32
frame_of_two = refl

read_message-write_message_example :
    read_message (write_message (codes "{}") ++ codes "rest") ≡ (ok (codes "{}"), codes "rest")
read_message-write_message_example =
    read_message-write_message (codes "{}") (codes "rest") (omega arith) (omega arith)

read_message_exact_example :
    (0 ∷ (0 ∷ (0 ∷ (2 ∷ codes "{}x"))) ≡ write_message (codes "{}") ++ codes "x")
    × (0 < length (codes "{}"))
    × (length (codes "{}") ≤ max_message)
unfolding read_message read_full uint32
read_message_exact_example =
    read_message_exact (0 ∷ (0 ∷ (0 ∷ (2 ∷ codes "{}x")))) (codes "{}") (codes "x") (omega arith)
      refl
