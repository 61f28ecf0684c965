-- ===== src/Encoder/Length/Instructions.antt =====
-- The instructions that src/x86/Encoder.cpp encodes fit the buffer of `ARCH_MAX_ILEN` bytes, which
-- src/Instruction.cpp encodes into.
use drob.Prelude.{ℕ, some, List, [], ◌∷◌, ◌≡◌, ◌≤◌, arith}
use drob.Prelude.Returns.{Returns-some}
use drob.Encoder.Operand.{length}
use drob.Encoder.Opcode.{
  Opcode, add8mr, cmp8mr, sub8mr, xor64mr, test8mr, shl64m, shr64m, mov64mr, lea16ra, push16m,
  pop16m, addpdrr, addsdrr, movapdrm, movsdrm, movupdmr, movupsmr, mulpdrr, mulsdrr, pxor128rr,
  callr, jmpr,
}
use drob.Encoder.Forms.{StaticOperand}
use drob.Encoder.Arith.{encode_add, encode_cmp, encode_sub}
use drob.Encoder.Logic.{encode_xor, encode_test, encode_shl, encode_shr}
use drob.Encoder.Move.{encode_mov, encode_lea, encode_push, encode_pop, encode_ret}
use drob.Encoder.Vector.{
  encode_addpd, encode_addsd, encode_movapd, encode_movsd, encode_movupd, encode_movups,
  encode_mulpd, encode_mulsd, encode_pxor,
}
use drob.Encoder.Control.{encode_call, encode_jmp, encode_jcc}
use drob.Encoder.Dispatch.{
  Encoder, run_encoder, encoder_of, encode, with_add, with_cmp, with_sub, with_xor, with_test,
  with_shl, with_shr, with_mov, with_lea, with_push, with_pop, with_ret, with_addpd, with_addsd,
  with_movapd, with_movsd, with_movupd, with_movups, with_mulpd, with_mulsd, with_pxor, with_call,
  with_jmp, with_jcc,
}
use drob.Encoder.Length.{Within}
use drob.Encoder.Length.Forms.{forms}

encode_add-Within :
    (opcode : Opcode) (ops : ℕ → StaticOperand) (addr : ℕ) → Within 15 (encode_add opcode ops addr)
unfolding encode_add
encode_add-Within add8mr ops addr = search forms depth 8
encode_add-Within _ ops addr = search forms depth 8

encode_cmp-Within :
    (opcode : Opcode) (ops : ℕ → StaticOperand) (addr : ℕ) → Within 15 (encode_cmp opcode ops addr)
unfolding encode_cmp
encode_cmp-Within cmp8mr ops addr = search forms depth 8
encode_cmp-Within _ ops addr = search forms depth 8

encode_sub-Within :
    (opcode : Opcode) (ops : ℕ → StaticOperand) (addr : ℕ) → Within 15 (encode_sub opcode ops addr)
unfolding encode_sub
encode_sub-Within sub8mr ops addr = search forms depth 8
encode_sub-Within _ ops addr = search forms depth 8

encode_xor-Within :
    (opcode : Opcode) (ops : ℕ → StaticOperand) (addr : ℕ) → Within 15 (encode_xor opcode ops addr)
unfolding encode_xor
encode_xor-Within xor64mr ops addr = search forms depth 8
encode_xor-Within _ ops addr = search forms depth 8

encode_test-Within :
    (opcode : Opcode) (ops : ℕ → StaticOperand) (addr : ℕ) → Within 15 (encode_test opcode ops addr)
unfolding encode_test
encode_test-Within test8mr ops addr = search forms depth 8
encode_test-Within _ ops addr = search forms depth 8

encode_shl-Within :
    (opcode : Opcode) (ops : ℕ → StaticOperand) (addr : ℕ) → Within 15 (encode_shl opcode ops addr)
unfolding encode_shl
encode_shl-Within shl64m ops addr = search forms depth 8
encode_shl-Within _ ops addr = search forms depth 8

encode_shr-Within :
    (opcode : Opcode) (ops : ℕ → StaticOperand) (addr : ℕ) → Within 15 (encode_shr opcode ops addr)
unfolding encode_shr
encode_shr-Within shr64m ops addr = search forms depth 8
encode_shr-Within _ ops addr = search forms depth 8

encode_mov-Within :
    (opcode : Opcode) (ops : ℕ → StaticOperand) (addr : ℕ) → Within 15 (encode_mov opcode ops addr)
unfolding encode_mov
encode_mov-Within mov64mr ops addr = search forms depth 8
encode_mov-Within _ ops addr = search forms depth 8

encode_lea-Within :
    (opcode : Opcode) (ops : ℕ → StaticOperand) (addr : ℕ) → Within 15 (encode_lea opcode ops addr)
unfolding encode_lea
encode_lea-Within lea16ra ops addr = search forms depth 8
encode_lea-Within _ ops addr = search forms depth 8

encode_push-Within :
    (opcode : Opcode) (ops : ℕ → StaticOperand) (addr : ℕ) → Within 15 (encode_push opcode ops addr)
unfolding encode_push
encode_push-Within push16m ops addr = search forms depth 8
encode_push-Within _ ops addr = search forms depth 8

encode_pop-Within :
    (opcode : Opcode) (ops : ℕ → StaticOperand) (addr : ℕ) → Within 15 (encode_pop opcode ops addr)
unfolding encode_pop
encode_pop-Within pop16m ops addr = search forms depth 8
encode_pop-Within _ ops addr = search forms depth 8

encode_ret-Within :
    (opcode : Opcode) (ops : ℕ → StaticOperand) (addr : ℕ) → Within 15 (encode_ret opcode ops addr)
unfolding encode_ret
encode_ret-Within opcode ops addr = Returns-some (0xc3 ∷ []) (omega arith)

encode_addpd-Within :
    (opcode : Opcode) (ops : ℕ → StaticOperand) (addr : ℕ)
    → Within 15 (encode_addpd opcode ops addr)
unfolding encode_addpd
encode_addpd-Within addpdrr ops addr = search forms depth 8
encode_addpd-Within _ ops addr = search forms depth 8

encode_addsd-Within :
    (opcode : Opcode) (ops : ℕ → StaticOperand) (addr : ℕ)
    → Within 15 (encode_addsd opcode ops addr)
unfolding encode_addsd
encode_addsd-Within addsdrr ops addr = search forms depth 8
encode_addsd-Within _ ops addr = search forms depth 8

encode_movapd-Within :
    (opcode : Opcode) (ops : ℕ → StaticOperand) (addr : ℕ)
    → Within 15 (encode_movapd opcode ops addr)
unfolding encode_movapd
encode_movapd-Within movapdrm ops addr = search forms depth 8
encode_movapd-Within _ ops addr = search forms depth 8

encode_movsd-Within :
    (opcode : Opcode) (ops : ℕ → StaticOperand) (addr : ℕ)
    → Within 15 (encode_movsd opcode ops addr)
unfolding encode_movsd
encode_movsd-Within movsdrm ops addr = search forms depth 8
encode_movsd-Within _ ops addr = search forms depth 8

encode_movupd-Within :
    (opcode : Opcode) (ops : ℕ → StaticOperand) (addr : ℕ)
    → Within 15 (encode_movupd opcode ops addr)
unfolding encode_movupd
encode_movupd-Within movupdmr ops addr = search forms depth 8
encode_movupd-Within _ ops addr = search forms depth 8

encode_movups-Within :
    (opcode : Opcode) (ops : ℕ → StaticOperand) (addr : ℕ)
    → Within 15 (encode_movups opcode ops addr)
unfolding encode_movups
encode_movups-Within movupsmr ops addr = search forms depth 8
encode_movups-Within _ ops addr = search forms depth 8

encode_mulpd-Within :
    (opcode : Opcode) (ops : ℕ → StaticOperand) (addr : ℕ)
    → Within 15 (encode_mulpd opcode ops addr)
unfolding encode_mulpd
encode_mulpd-Within mulpdrr ops addr = search forms depth 8
encode_mulpd-Within _ ops addr = search forms depth 8

encode_mulsd-Within :
    (opcode : Opcode) (ops : ℕ → StaticOperand) (addr : ℕ)
    → Within 15 (encode_mulsd opcode ops addr)
unfolding encode_mulsd
encode_mulsd-Within mulsdrr ops addr = search forms depth 8
encode_mulsd-Within _ ops addr = search forms depth 8

encode_pxor-Within :
    (opcode : Opcode) (ops : ℕ → StaticOperand) (addr : ℕ) → Within 15 (encode_pxor opcode ops addr)
unfolding encode_pxor
encode_pxor-Within pxor128rr ops addr = search forms depth 8
encode_pxor-Within _ ops addr = search forms depth 8

encode_call-Within :
    (opcode : Opcode) (ops : ℕ → StaticOperand) (addr : ℕ) → Within 15 (encode_call opcode ops addr)
unfolding encode_call
encode_call-Within callr ops addr = search forms depth 8
encode_call-Within _ ops addr = search forms depth 8

encode_jmp-Within :
    (opcode : Opcode) (ops : ℕ → StaticOperand) (addr : ℕ) → Within 15 (encode_jmp opcode ops addr)
unfolding encode_jmp
encode_jmp-Within jmpr ops addr = search forms depth 8
encode_jmp-Within _ ops addr = search forms depth 8

encode_jcc-Within :
    (opcode : Opcode) (ops : ℕ → StaticOperand) (addr : ℕ) → Within 15 (encode_jcc opcode ops addr)
unfolding encode_jcc
encode_jcc-Within opcode ops addr = search forms

run_encoder-Within :
    (e : Encoder) (opcode : Opcode) (ops : ℕ → StaticOperand) (addr : ℕ)
    → Within 15 (run_encoder e opcode ops addr)
run_encoder-Within with_add opcode ops addr = encode_add-Within opcode ops addr
run_encoder-Within with_cmp opcode ops addr = encode_cmp-Within opcode ops addr
run_encoder-Within with_sub opcode ops addr = encode_sub-Within opcode ops addr
run_encoder-Within with_xor opcode ops addr = encode_xor-Within opcode ops addr
run_encoder-Within with_test opcode ops addr = encode_test-Within opcode ops addr
run_encoder-Within with_shl opcode ops addr = encode_shl-Within opcode ops addr
run_encoder-Within with_shr opcode ops addr = encode_shr-Within opcode ops addr
run_encoder-Within with_mov opcode ops addr = encode_mov-Within opcode ops addr
run_encoder-Within with_lea opcode ops addr = encode_lea-Within opcode ops addr
run_encoder-Within with_push opcode ops addr = encode_push-Within opcode ops addr
run_encoder-Within with_pop opcode ops addr = encode_pop-Within opcode ops addr
run_encoder-Within with_ret opcode ops addr = encode_ret-Within opcode ops addr
run_encoder-Within with_addpd opcode ops addr = encode_addpd-Within opcode ops addr
run_encoder-Within with_addsd opcode ops addr = encode_addsd-Within opcode ops addr
run_encoder-Within with_movapd opcode ops addr = encode_movapd-Within opcode ops addr
run_encoder-Within with_movsd opcode ops addr = encode_movsd-Within opcode ops addr
run_encoder-Within with_movupd opcode ops addr = encode_movupd-Within opcode ops addr
run_encoder-Within with_movups opcode ops addr = encode_movups-Within opcode ops addr
run_encoder-Within with_mulpd opcode ops addr = encode_mulpd-Within opcode ops addr
run_encoder-Within with_mulsd opcode ops addr = encode_mulsd-Within opcode ops addr
run_encoder-Within with_pxor opcode ops addr = encode_pxor-Within opcode ops addr
run_encoder-Within with_call opcode ops addr = encode_call-Within opcode ops addr
run_encoder-Within with_jmp opcode ops addr = encode_jmp-Within opcode ops addr
run_encoder-Within with_jcc opcode ops addr = encode_jcc-Within opcode ops addr

-- Whatever the opcode, the operands and the address: an instruction that is encoded has at most 15
-- bytes.
pub encode-Within :
    (opcode : Opcode) (ops : ℕ → StaticOperand) (addr : ℕ) {bytes : List ℕ}
    → encode opcode ops addr ≡ some bytes
    → length bytes ≤ 15
unfolding encode
encode-Within opcode ops addr {bytes} h =
    (run_encoder-Within (encoder_of opcode) opcode ops addr).result bytes h
