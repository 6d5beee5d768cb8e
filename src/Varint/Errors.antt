-- ===== src/Varint/Errors.antt =====
-- The only exception of `decode_varint` is `PacketError`.
use ino_a9_local_bridge.Base.{ℕ, zero, suc, ◌+◌, List, inl, inr}
use ino_a9_local_bridge.Base.Tests.{Option-cases}
use ino_a9_local_bridge.Base.Lists.{get_elem?}
use ino_a9_local_bridge.Base.Raises.{Raises, IsPacketError, ok-Raises, err-Raises, if_Raises}
use ino_a9_local_bridge.Varint.{add_group, decode_loop, decode_varint}

decode_loop-Raises :
    (left : ℕ) (bytes : List ℕ) (offset value index : ℕ)
    → Raises IsPacketError (decode_loop left bytes offset value index)
unfolding decode_loop
decode_loop-Raises zero bytes offset value index = err-Raises _ tt
decode_loop-Raises (suc left) bytes offset value index =
    elim (Option-cases (get_elem? bytes offset)) [
      | inl q ↦ rw (q, decode_loop) (err-Raises _ tt)
      | inr (b, q) ↦
          rw (q, decode_loop)
            (if_Raises _ _ _ (ok-Raises _)
              (decode_loop-Raises left bytes (offset + 1) (add_group value b index) (index + 1)))
    ]

pub decode_varint-Raises :
    (bytes : List ℕ) (offset m : ℕ) → Raises IsPacketError (decode_varint bytes offset m)
decode_varint-Raises bytes offset m = unfold decode_varint in decode_loop-Raises m bytes offset 0 0
