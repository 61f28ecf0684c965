-- ===== src/Encoder/Dispatch.antt =====
-- The column of src/x86/Opcodes.inc.h that names the function that encodes an opcode.
use drob.Prelude.{ℕ, Option, List}
use drob.Encoder.Forms.{StaticOperand}
use drob.Encoder.Opcode.{
  Opcode, add16mi, add16mr, add16ri, add16rm, add16rr, add32mi, add32mr, add32ri, add32rm, add32rr,
  add64mi, add64mr, add64ri, add64rm, add64rr, add8mi, add8mr, add8ri, add8rm, add8rr, addpdrm,
  addpdrr, addsdrm, addsdrr, calla, callm, callr, cmp16mi, cmp16mr, cmp16ri, cmp16rm, cmp16rr,
  cmp32mi, cmp32mr, cmp32ri, cmp32rm, cmp32rr, cmp64mi, cmp64mr, cmp64ri, cmp64rm, cmp64rr, cmp8mi,
  cmp8mr, cmp8ri, cmp8rm, cmp8rr, jba, jbea, jcxz32a, jcxz64a, jla, jlea, jmpa, jmpm, jmpr, jnba,
  jnbea, jnla, jnlea, jnoa, jnpa, jnsa, jnza, joa, jpa, jsa, jza, lea16ra, lea32ra, lea64ra,
  mov32mi, mov32mr, mov32ri, mov32rm, mov32rr, mov64mi, mov64mr, mov64ri, mov64rm, mov64rr,
  movapdmr, movapdrm, movapdrr, movsdmr, movsdrm, movsdrr, movupdmr, movupdrm, movupdrr, movupsmr,
  movupsrm, movupsrr, mulpdrm, mulpdrr, mulsdrm, mulsdrr, pop16m, pop16r, pop64m, pop64r, push16i,
  push16m, push16r, push64i, push64m, push64r, pxor128rm, pxor128rr, ret, shl64m, shl64mi, shl64r,
  shl64ri, shr64m, shr64mi, shr64r, shr64ri, sub16mi, sub16mr, sub16ri, sub16rm, sub16rr, sub32mi,
  sub32mr, sub32ri, sub32rm, sub32rr, sub64mi, sub64mr, sub64ri, sub64rm, sub64rr, sub8mi, sub8mr,
  sub8ri, sub8rm, sub8rr, test16mi, test16mr, test16ri, test16rr, test32mi, test32mr, test32ri,
  test32rr, test64mi, test64mr, test64ri, test64rr, test8mi, test8mr, test8ri, test8rr, xor32mi,
  xor32mr, xor32ri, xor32rm, xor32rr, xor64mi, xor64mr, xor64ri, xor64rm, xor64rr,
}
use drob.Encoder.Arith.{encode_add, encode_cmp, encode_sub}
use drob.Encoder.Logic.{encode_xor, encode_test, encode_shl, encode_shr}
use drob.Encoder.Move.{encode_mov, encode_lea, encode_push, encode_pop, encode_ret}
use drob.Encoder.Vector.{
  encode_addpd, encode_addsd, encode_movapd, encode_movsd, encode_movupd, encode_movups,
  encode_mulpd, encode_mulsd, encode_pxor,
}
use drob.Encoder.Control.{encode_call, encode_jmp, encode_jcc}

-- The functions that encode, a family of opcodes each.
pub data Encoder : Type 0 where
  with_add with_addpd with_addsd with_call with_cmp with_jcc with_jmp with_lea with_mov with_movapd
        with_movsd with_movupd with_movups with_mulpd with_mulsd with_pop with_push with_pxor
        with_ret with_shl with_shr with_sub with_test with_xor :
      Encoder

-- The column of the table.
unfoldable pub encoder_of : Opcode → Encoder
encoder_of add8mr = with_add
encoder_of add8rr = with_add
encoder_of add8rm = with_add
encoder_of add8mi = with_add
encoder_of add8ri = with_add
encoder_of add16mr = with_add
encoder_of add16rr = with_add
encoder_of add16rm = with_add
encoder_of add16mi = with_add
encoder_of add16ri = with_add
encoder_of add32mr = with_add
encoder_of add32rr = with_add
encoder_of add32rm = with_add
encoder_of add32mi = with_add
encoder_of add32ri = with_add
encoder_of add64mr = with_add
encoder_of add64rr = with_add
encoder_of add64rm = with_add
encoder_of add64mi = with_add
encoder_of add64ri = with_add
encoder_of addpdrm = with_addpd
encoder_of addpdrr = with_addpd
encoder_of addsdrm = with_addsd
encoder_of addsdrr = with_addsd
encoder_of calla = with_call
encoder_of callm = with_call
encoder_of callr = with_call
encoder_of cmp8mr = with_cmp
encoder_of cmp8mi = with_cmp
encoder_of cmp8rm = with_cmp
encoder_of cmp8rr = with_cmp
encoder_of cmp8ri = with_cmp
encoder_of cmp16mr = with_cmp
encoder_of cmp16mi = with_cmp
encoder_of cmp16rm = with_cmp
encoder_of cmp16rr = with_cmp
encoder_of cmp16ri = with_cmp
encoder_of cmp32mr = with_cmp
encoder_of cmp32mi = with_cmp
encoder_of cmp32rm = with_cmp
encoder_of cmp32rr = with_cmp
encoder_of cmp32ri = with_cmp
encoder_of cmp64mr = with_cmp
encoder_of cmp64mi = with_cmp
encoder_of cmp64rm = with_cmp
encoder_of cmp64rr = with_cmp
encoder_of cmp64ri = with_cmp
encoder_of jnbea = with_jcc
encoder_of jnba = with_jcc
encoder_of jba = with_jcc
encoder_of jbea = with_jcc
encoder_of jcxz32a = with_jcc
encoder_of jcxz64a = with_jcc
encoder_of jza = with_jcc
encoder_of jnlea = with_jcc
encoder_of jnla = with_jcc
encoder_of jla = with_jcc
encoder_of jlea = with_jcc
encoder_of jnza = with_jcc
encoder_of jnoa = with_jcc
encoder_of jnpa = with_jcc
encoder_of jnsa = with_jcc
encoder_of joa = with_jcc
encoder_of jpa = with_jcc
encoder_of jsa = with_jcc
encoder_of jmpa = with_jmp
encoder_of jmpm = with_jmp
encoder_of jmpr = with_jmp
encoder_of lea64ra = with_lea
encoder_of lea32ra = with_lea
encoder_of lea16ra = with_lea
encoder_of mov64mr = with_mov
encoder_of mov64rr = with_mov
encoder_of mov64rm = with_mov
encoder_of mov64mi = with_mov
encoder_of mov64ri = with_mov
encoder_of mov32mr = with_mov
encoder_of mov32rr = with_mov
encoder_of mov32rm = with_mov
encoder_of mov32mi = with_mov
encoder_of mov32ri = with_mov
encoder_of movapdrm = with_movapd
encoder_of movapdrr = with_movapd
encoder_of movapdmr = with_movapd
encoder_of movsdrm = with_movsd
encoder_of movsdrr = with_movsd
encoder_of movsdmr = with_movsd
encoder_of movupdmr = with_movupd
encoder_of movupdrr = with_movupd
encoder_of movupdrm = with_movupd
encoder_of movupsmr = with_movups
encoder_of movupsrr = with_movups
encoder_of movupsrm = with_movups
encoder_of mulpdrm = with_mulpd
encoder_of mulpdrr = with_mulpd
encoder_of mulsdrm = with_mulsd
encoder_of mulsdrr = with_mulsd
encoder_of pop16m = with_pop
encoder_of pop16r = with_pop
encoder_of pop64m = with_pop
encoder_of pop64r = with_pop
encoder_of push16m = with_push
encoder_of push16r = with_push
encoder_of push16i = with_push
encoder_of push64m = with_push
encoder_of push64r = with_push
encoder_of push64i = with_push
encoder_of pxor128rm = with_pxor
encoder_of pxor128rr = with_pxor
encoder_of ret = with_ret
encoder_of shl64m = with_shl
encoder_of shl64r = with_shl
encoder_of shl64mi = with_shl
encoder_of shl64ri = with_shl
encoder_of shr64m = with_shr
encoder_of shr64r = with_shr
encoder_of shr64mi = with_shr
encoder_of shr64ri = with_shr
encoder_of sub8mr = with_sub
encoder_of sub8rr = with_sub
encoder_of sub8rm = with_sub
encoder_of sub8mi = with_sub
encoder_of sub8ri = with_sub
encoder_of sub16mr = with_sub
encoder_of sub16rr = with_sub
encoder_of sub16rm = with_sub
encoder_of sub16mi = with_sub
encoder_of sub16ri = with_sub
encoder_of sub32mr = with_sub
encoder_of sub32rr = with_sub
encoder_of sub32rm = with_sub
encoder_of sub32mi = with_sub
encoder_of sub32ri = with_sub
encoder_of sub64mr = with_sub
encoder_of sub64rr = with_sub
encoder_of sub64rm = with_sub
encoder_of sub64mi = with_sub
encoder_of sub64ri = with_sub
encoder_of test8mr = with_test
encoder_of test8mi = with_test
encoder_of test8rr = with_test
encoder_of test8ri = with_test
encoder_of test16mr = with_test
encoder_of test16mi = with_test
encoder_of test16rr = with_test
encoder_of test16ri = with_test
encoder_of test32mr = with_test
encoder_of test32mi = with_test
encoder_of test32rr = with_test
encoder_of test32ri = with_test
encoder_of test64mr = with_test
encoder_of test64mi = with_test
encoder_of test64rr = with_test
encoder_of test64ri = with_test
encoder_of xor64mr = with_xor
encoder_of xor64rr = with_xor
encoder_of xor64rm = with_xor
encoder_of xor64mi = with_xor
encoder_of xor64ri = with_xor
encoder_of xor32mr = with_xor
encoder_of xor32rr = with_xor
encoder_of xor32rm = with_xor
encoder_of xor32mi = with_xor
encoder_of xor32ri = with_xor

abbrev pub run_encoder : Encoder → Opcode → (ℕ → StaticOperand) → ℕ → Option (List ℕ)
run_encoder with_add opcode ops addr = encode_add opcode ops addr
run_encoder with_addpd opcode ops addr = encode_addpd opcode ops addr
run_encoder with_addsd opcode ops addr = encode_addsd opcode ops addr
run_encoder with_call opcode ops addr = encode_call opcode ops addr
run_encoder with_cmp opcode ops addr = encode_cmp opcode ops addr
run_encoder with_jcc opcode ops addr = encode_jcc opcode ops addr
run_encoder with_jmp opcode ops addr = encode_jmp opcode ops addr
run_encoder with_lea opcode ops addr = encode_lea opcode ops addr
run_encoder with_mov opcode ops addr = encode_mov opcode ops addr
run_encoder with_movapd opcode ops addr = encode_movapd opcode ops addr
run_encoder with_movsd opcode ops addr = encode_movsd opcode ops addr
run_encoder with_movupd opcode ops addr = encode_movupd opcode ops addr
run_encoder with_movups opcode ops addr = encode_movups opcode ops addr
run_encoder with_mulpd opcode ops addr = encode_mulpd opcode ops addr
run_encoder with_mulsd opcode ops addr = encode_mulsd opcode ops addr
run_encoder with_pop opcode ops addr = encode_pop opcode ops addr
run_encoder with_push opcode ops addr = encode_push opcode ops addr
run_encoder with_pxor opcode ops addr = encode_pxor opcode ops addr
run_encoder with_ret opcode ops addr = encode_ret opcode ops addr
run_encoder with_shl opcode ops addr = encode_shl opcode ops addr
run_encoder with_shr opcode ops addr = encode_shr opcode ops addr
run_encoder with_sub opcode ops addr = encode_sub opcode ops addr
run_encoder with_test opcode ops addr = encode_test opcode ops addr
run_encoder with_xor opcode ops addr = encode_xor opcode ops addr

-- `OpcodeInfo::encode` of an opcode.
unfoldable pub encode : Opcode → (ℕ → StaticOperand) → ℕ → Option (List ℕ)
unfolding encoder_of
encode opcode ops addr = run_encoder (encoder_of opcode) opcode ops addr
