-- ===== src/Opcodes/Table.antt =====
-- The rows of src/x86/Opcodes.inc.h: operands, predicate, refinement and emulation of each opcode. The
-- columns for the control flow, the code generation and the specialization are left out.
use drob.Prelude.{none, some, [], ◌∷◌}
use drob.Predicate.{
  pred_b, pred_be, pred_ecx0, pred_l, pred_le, pred_nb, pred_nbe, pred_nl, pred_nle, pred_no,
  pred_np, pred_ns, pred_nz, pred_o, pred_p, pred_rcx0, pred_s, pred_z,
}
use drob.Emulator.{Processor}
use drob.Emulator.Arith.{
  emulate_add, emulate_add64, emulate_addpd, emulate_addsd, emulate_cmp16, emulate_cmp32,
  emulate_cmp64, emulate_cmp8, emulate_mulpd, emulate_mulsd, emulate_pxor, emulate_shl64,
  emulate_shr64, emulate_sub, emulate_sub64, emulate_test16, emulate_test32, emulate_test64,
  emulate_test8, emulate_xor32, emulate_xor64,
}
use drob.Emulator.Control.{
  emulate_call, emulate_lea, emulate_mov, emulate_pop, emulate_push, emulate_ret,
}
use drob.Instruction.{OpcodeInfo, of_emu_full, of_emu_ptr, of_emu_imm}
use drob.Encoder.Opcode.{
  Opcode, add8mr, add8rr, add8rm, add8mi, add8ri, add16mr, add16rr, add16rm, add16mi, add16ri,
  add32mr, add32rr, add32rm, add32mi, add32ri, add64mr, add64rr, add64rm, add64mi, add64ri, addpdrm,
  addpdrr, addsdrm, addsdrr, calla, callm, callr, cmp8mr, cmp8mi, cmp8rm, cmp8rr, cmp8ri, cmp16mr,
  cmp16mi, cmp16rm, cmp16rr, cmp16ri, cmp32mr, cmp32mi, cmp32rm, cmp32rr, cmp32ri, cmp64mr, cmp64mi,
  cmp64rm, cmp64rr, cmp64ri, jnbea, jnba, jba, jbea, jcxz32a, jcxz64a, jza, jnlea, jnla, jla, jlea,
  jnza, jnoa, jnpa, jnsa, joa, jpa, jsa, jmpa, jmpm, jmpr, lea64ra, lea32ra, lea16ra, mov64mr,
  mov64rr, mov64rm, mov64mi, mov64ri, mov32mr, mov32rr, mov32rm, mov32mi, mov32ri, movapdrm,
  movapdrr, movapdmr, movsdrm, movsdrr, movsdmr, movupdmr, movupdrr, movupdrm, movupsmr, movupsrr,
  movupsrm, mulpdrm, mulpdrr, mulsdrm, mulsdrr, pop16m, pop16r, pop64m, pop64r, push16m, push16r,
  push16i, push64m, push64r, push64i, pxor128rm, pxor128rr, ret, shl64m, shl64r, shl64mi, shl64ri,
  shr64m, shr64r, shr64mi, shr64ri, sub8mr, sub8rr, sub8rm, sub8mi, sub8ri, sub16mr, sub16rr,
  sub16rm, sub16mi, sub16ri, sub32mr, sub32rr, sub32rm, sub32mi, sub32ri, sub64mr, sub64rr, sub64rm,
  sub64mi, sub64ri, test8mr, test8mi, test8rr, test8ri, test16mr, test16mi, test16rr, test16ri,
  test32mr, test32mi, test32rr, test32ri, test64mr, test64mi, test64rr, test64ri, xor64mr, xor64rr,
  xor64rm, xor64mi, xor64ri, xor32mr, xor32rr, xor32rm, xor32mi, xor32ri,
}
use drob.Opcodes.{
  opc, i16, i32, i64, i8, m128r, m128w, m16r, m16rw, m16w, m32r, m32rw, m32w, m64r, m64rw, m64w,
  m8r, m8rw, ma, r16r, r16rw, r16w, r32mr, r32mrw, r32r, r32rw, r32w, r64mr, r64mrw, r64r, r64rw,
  r64w, r8r, r8rw, s32, x128mr, x128mrw, x128r, x128rw, x128w, x64r, x64rw, x64w, eflags_w,
  eflags_mw, pop_stack, push_stack, shift_flags_of, refine_sh, refine_xor_rr,
}

module _ (cpu : Processor) where
  -- `arch_get_opcode_info`; a row without emulation has no flag, and `of_emu_imm` here.
  unfoldable pub opcode_info : Opcode → OpcodeInfo
  opcode_info add8mr =
      opc (m8rw ∷ r8r ∷ []) eflags_w none none (some (emulate_add cpu 8)) of_emu_imm
  opcode_info add8rr =
      opc (r8rw ∷ r8r ∷ []) eflags_w none none (some (emulate_add cpu 8)) of_emu_imm
  opcode_info add8rm =
      opc (r8rw ∷ m8r ∷ []) eflags_w none none (some (emulate_add cpu 8)) of_emu_imm
  opcode_info add8mi = opc (m8rw ∷ i8 ∷ []) eflags_w none none (some (emulate_add cpu 8)) of_emu_imm
  opcode_info add8ri = opc (r8rw ∷ i8 ∷ []) eflags_w none none (some (emulate_add cpu 8)) of_emu_imm
  opcode_info add16mr =
      opc (m16rw ∷ r16r ∷ []) eflags_w none none (some (emulate_add cpu 16)) of_emu_imm
  opcode_info add16rr =
      opc (r16rw ∷ r16r ∷ []) eflags_w none none (some (emulate_add cpu 16)) of_emu_imm
  opcode_info add16rm =
      opc (r16rw ∷ m16r ∷ []) eflags_w none none (some (emulate_add cpu 16)) of_emu_imm
  opcode_info add16mi =
      opc (m16rw ∷ i16 ∷ []) eflags_w none none (some (emulate_add cpu 16)) of_emu_imm
  opcode_info add16ri =
      opc (r16rw ∷ i16 ∷ []) eflags_w none none (some (emulate_add cpu 16)) of_emu_imm
  opcode_info add32mr =
      opc (m32rw ∷ r32r ∷ []) eflags_w none none (some (emulate_add cpu 32)) of_emu_imm
  opcode_info add32rr =
      opc (r32rw ∷ r32r ∷ []) eflags_w none none (some (emulate_add cpu 32)) of_emu_imm
  opcode_info add32rm =
      opc (r32rw ∷ m32r ∷ []) eflags_w none none (some (emulate_add cpu 32)) of_emu_imm
  opcode_info add32mi =
      opc (m32rw ∷ i32 ∷ []) eflags_w none none (some (emulate_add cpu 32)) of_emu_imm
  opcode_info add32ri =
      opc (r32rw ∷ i32 ∷ []) eflags_w none none (some (emulate_add cpu 32)) of_emu_imm
  opcode_info add64mr =
      opc (m64rw ∷ r64r ∷ []) eflags_w none none (some (emulate_add64 cpu)) of_emu_ptr
  opcode_info add64rr =
      opc (r64rw ∷ r64r ∷ []) eflags_w none none (some (emulate_add64 cpu)) of_emu_ptr
  opcode_info add64rm =
      opc (r64rw ∷ m64r ∷ []) eflags_w none none (some (emulate_add64 cpu)) of_emu_ptr
  opcode_info add64mi =
      opc (m64rw ∷ s32 ∷ []) eflags_w none none (some (emulate_add64 cpu)) of_emu_ptr
  opcode_info add64ri =
      opc (r64rw ∷ s32 ∷ []) eflags_w none none (some (emulate_add64 cpu)) of_emu_ptr
  opcode_info addpdrm = opc (x128rw ∷ m128r ∷ []) [] none none (some (emulate_addpd cpu)) of_emu_imm
  opcode_info addpdrr = opc (x128rw ∷ x128r ∷ []) [] none none (some (emulate_addpd cpu)) of_emu_imm
  opcode_info addsdrm = opc (x64rw ∷ m64r ∷ []) [] none none (some (emulate_addsd cpu)) of_emu_imm
  opcode_info addsdrr = opc (x64rw ∷ x64r ∷ []) [] none none (some (emulate_addsd cpu)) of_emu_imm
  opcode_info calla = opc (ma ∷ []) (push_stack 8) none none (some emulate_call) of_emu_full
  opcode_info callm = opc (m64r ∷ []) (push_stack 8) none none (some emulate_call) of_emu_full
  opcode_info callr = opc (r64r ∷ []) (push_stack 8) none none (some emulate_call) of_emu_full
  opcode_info cmp8mr = opc (m8r ∷ r8r ∷ []) eflags_w none none (some (emulate_cmp8 cpu)) of_emu_imm
  opcode_info cmp8mi = opc (m8r ∷ i8 ∷ []) eflags_w none none (some (emulate_cmp8 cpu)) of_emu_imm
  opcode_info cmp8rm = opc (r8r ∷ m8r ∷ []) eflags_w none none (some (emulate_cmp8 cpu)) of_emu_imm
  opcode_info cmp8rr = opc (r8r ∷ r8r ∷ []) eflags_w none none (some (emulate_cmp8 cpu)) of_emu_imm
  opcode_info cmp8ri = opc (r8r ∷ i8 ∷ []) eflags_w none none (some (emulate_cmp16 cpu)) of_emu_imm
  opcode_info cmp16mr =
      opc (m16r ∷ r16r ∷ []) eflags_w none none (some (emulate_cmp16 cpu)) of_emu_imm
  opcode_info cmp16mi =
      opc (m16r ∷ i16 ∷ []) eflags_w none none (some (emulate_cmp16 cpu)) of_emu_imm
  opcode_info cmp16rm =
      opc (r16r ∷ m16r ∷ []) eflags_w none none (some (emulate_cmp16 cpu)) of_emu_imm
  opcode_info cmp16rr =
      opc (r16r ∷ r16r ∷ []) eflags_w none none (some (emulate_cmp16 cpu)) of_emu_imm
  opcode_info cmp16ri =
      opc (r16r ∷ i16 ∷ []) eflags_w none none (some (emulate_cmp16 cpu)) of_emu_imm
  opcode_info cmp32mr =
      opc (m32r ∷ r32r ∷ []) eflags_w none none (some (emulate_cmp32 cpu)) of_emu_imm
  opcode_info cmp32mi =
      opc (m32r ∷ i32 ∷ []) eflags_w none none (some (emulate_cmp32 cpu)) of_emu_imm
  opcode_info cmp32rm =
      opc (r32r ∷ m32r ∷ []) eflags_w none none (some (emulate_cmp32 cpu)) of_emu_imm
  opcode_info cmp32rr =
      opc (r32r ∷ r32r ∷ []) eflags_w none none (some (emulate_cmp32 cpu)) of_emu_imm
  opcode_info cmp32ri =
      opc (r32r ∷ i32 ∷ []) eflags_w none none (some (emulate_cmp32 cpu)) of_emu_imm
  opcode_info cmp64mr =
      opc (m64r ∷ r64r ∷ []) eflags_w none none (some (emulate_cmp64 cpu)) of_emu_ptr
  opcode_info cmp64mi =
      opc (m64r ∷ s32 ∷ []) eflags_w none none (some (emulate_cmp64 cpu)) of_emu_ptr
  opcode_info cmp64rm =
      opc (r64r ∷ m64r ∷ []) eflags_w none none (some (emulate_cmp64 cpu)) of_emu_ptr
  opcode_info cmp64rr =
      opc (r64r ∷ r64r ∷ []) eflags_w none none (some (emulate_cmp64 cpu)) of_emu_ptr
  opcode_info cmp64ri =
      opc (r64r ∷ s32 ∷ []) eflags_w none none (some (emulate_cmp64 cpu)) of_emu_ptr
  opcode_info jnbea = opc (ma ∷ []) [] (some pred_nbe) none none of_emu_imm
  opcode_info jnba = opc (ma ∷ []) [] (some pred_nb) none none of_emu_imm
  opcode_info jba = opc (ma ∷ []) [] (some pred_b) none none of_emu_imm
  opcode_info jbea = opc (ma ∷ []) [] (some pred_be) none none of_emu_imm
  opcode_info jcxz32a = opc (ma ∷ []) [] (some pred_ecx0) none none of_emu_imm
  opcode_info jcxz64a = opc (ma ∷ []) [] (some pred_rcx0) none none of_emu_imm
  opcode_info jza = opc (ma ∷ []) [] (some pred_z) none none of_emu_imm
  opcode_info jnlea = opc (ma ∷ []) [] (some pred_nle) none none of_emu_imm
  opcode_info jnla = opc (ma ∷ []) [] (some pred_nl) none none of_emu_imm
  opcode_info jla = opc (ma ∷ []) [] (some pred_l) none none of_emu_imm
  opcode_info jlea = opc (ma ∷ []) [] (some pred_le) none none of_emu_imm
  opcode_info jnza = opc (ma ∷ []) [] (some pred_nz) none none of_emu_imm
  opcode_info jnoa = opc (ma ∷ []) [] (some pred_no) none none of_emu_imm
  opcode_info jnpa = opc (ma ∷ []) [] (some pred_np) none none of_emu_imm
  opcode_info jnsa = opc (ma ∷ []) [] (some pred_ns) none none of_emu_imm
  opcode_info joa = opc (ma ∷ []) [] (some pred_o) none none of_emu_imm
  opcode_info jpa = opc (ma ∷ []) [] (some pred_p) none none of_emu_imm
  opcode_info jsa = opc (ma ∷ []) [] (some pred_s) none none of_emu_imm
  opcode_info jmpa = opc (ma ∷ []) [] none none none of_emu_imm
  opcode_info jmpm = opc (m64r ∷ []) [] none none none of_emu_imm
  opcode_info jmpr = opc (r64r ∷ []) [] none none none of_emu_imm
  opcode_info lea64ra = opc (r64w ∷ ma ∷ []) [] none none (some emulate_lea) of_emu_full
  opcode_info lea32ra = opc (r32w ∷ ma ∷ []) [] none none (some emulate_lea) of_emu_full
  opcode_info lea16ra = opc (r16w ∷ ma ∷ []) [] none none (some emulate_lea) of_emu_full
  opcode_info mov64mr = opc (m64w ∷ r64r ∷ []) [] none none (some emulate_mov) of_emu_full
  opcode_info mov64rr = opc (r64w ∷ r64r ∷ []) [] none none (some emulate_mov) of_emu_full
  opcode_info mov64rm = opc (r64w ∷ m64r ∷ []) [] none none (some emulate_mov) of_emu_full
  opcode_info mov64mi = opc (m64w ∷ s32 ∷ []) [] none none (some emulate_mov) of_emu_full
  opcode_info mov64ri = opc (r64w ∷ i64 ∷ []) [] none none (some emulate_mov) of_emu_full
  opcode_info mov32mr = opc (m32w ∷ r32r ∷ []) [] none none (some emulate_mov) of_emu_full
  opcode_info mov32rr = opc (r32w ∷ r32r ∷ []) [] none none (some emulate_mov) of_emu_full
  opcode_info mov32rm = opc (r32w ∷ m32r ∷ []) [] none none (some emulate_mov) of_emu_full
  opcode_info mov32mi = opc (m32w ∷ i32 ∷ []) [] none none (some emulate_mov) of_emu_full
  opcode_info mov32ri = opc (r32w ∷ i32 ∷ []) [] none none (some emulate_mov) of_emu_full
  opcode_info movapdrm = opc (x128w ∷ m128r ∷ []) [] none none (some emulate_mov) of_emu_full
  opcode_info movapdrr = opc (x128w ∷ x128r ∷ []) [] none none (some emulate_mov) of_emu_full
  opcode_info movapdmr = opc (m128w ∷ x128r ∷ []) [] none none (some emulate_mov) of_emu_full
  opcode_info movsdrm = opc (x64w ∷ m64r ∷ []) [] none none (some emulate_mov) of_emu_full
  opcode_info movsdrr = opc (x64w ∷ x64r ∷ []) [] none none (some emulate_mov) of_emu_full
  opcode_info movsdmr = opc (m64w ∷ x64r ∷ []) [] none none (some emulate_mov) of_emu_full
  opcode_info movupdmr = opc (m128w ∷ x128r ∷ []) [] none none (some emulate_mov) of_emu_full
  opcode_info movupdrr = opc (x128w ∷ x128r ∷ []) [] none none (some emulate_mov) of_emu_full
  opcode_info movupdrm = opc (x128w ∷ m128r ∷ []) [] none none (some emulate_mov) of_emu_full
  opcode_info movupsmr = opc (m128w ∷ x128r ∷ []) [] none none (some emulate_mov) of_emu_full
  opcode_info movupsrr = opc (x128w ∷ x128r ∷ []) [] none none (some emulate_mov) of_emu_full
  opcode_info movupsrm = opc (x128w ∷ m128r ∷ []) [] none none (some emulate_mov) of_emu_full
  opcode_info mulpdrm = opc (x128rw ∷ m128r ∷ []) [] none none (some (emulate_mulpd cpu)) of_emu_imm
  opcode_info mulpdrr = opc (x128rw ∷ x128r ∷ []) [] none none (some (emulate_mulpd cpu)) of_emu_imm
  opcode_info mulsdrm = opc (x64rw ∷ m64r ∷ []) [] none none (some (emulate_mulsd cpu)) of_emu_imm
  opcode_info mulsdrr = opc (x64rw ∷ x64r ∷ []) [] none none (some (emulate_mulsd cpu)) of_emu_imm
  opcode_info pop16m = opc (m16w ∷ []) (pop_stack 2) none none (some emulate_pop) of_emu_full
  opcode_info pop16r = opc (r16w ∷ []) (pop_stack 2) none none (some emulate_pop) of_emu_full
  opcode_info pop64m = opc (m64w ∷ []) (pop_stack 8) none none (some emulate_pop) of_emu_full
  opcode_info pop64r = opc (r64w ∷ []) (pop_stack 8) none none (some emulate_pop) of_emu_full
  opcode_info push16m = opc (m16r ∷ []) (push_stack 2) none none (some emulate_push) of_emu_full
  opcode_info push16r = opc (r16r ∷ []) (push_stack 2) none none (some emulate_push) of_emu_full
  opcode_info push16i = opc (i16 ∷ []) (push_stack 2) none none (some emulate_push) of_emu_full
  opcode_info push64m = opc (m64r ∷ []) (push_stack 8) none none (some emulate_push) of_emu_full
  opcode_info push64r = opc (r64r ∷ []) (push_stack 8) none none (some emulate_push) of_emu_full
  opcode_info push64i = opc (s32 ∷ []) (push_stack 8) none none (some emulate_push) of_emu_full
  opcode_info pxor128rm =
      opc (x128rw ∷ m128r ∷ []) [] none none (some (emulate_pxor cpu)) of_emu_full
  opcode_info pxor128rr =
      opc (x128mrw ∷ x128mr ∷ []) [] none (some (refine_xor_rr pxor128rr)) (some (emulate_pxor cpu))
        of_emu_full
  opcode_info ret = opc [] (pop_stack 8) none none (some emulate_ret) of_emu_full
  opcode_info shl64m =
      opc (m64rw ∷ []) shift_flags_of none (some (refine_sh shl64m)) (some (emulate_shl64 cpu))
        of_emu_full
  opcode_info shl64r =
      opc (r64rw ∷ []) shift_flags_of none (some (refine_sh shl64r)) (some (emulate_shl64 cpu))
        of_emu_full
  opcode_info shl64mi =
      opc (m64rw ∷ i8 ∷ []) eflags_mw none (some (refine_sh shl64mi)) (some (emulate_shl64 cpu))
        of_emu_full
  opcode_info shl64ri =
      opc (r64rw ∷ i8 ∷ []) eflags_mw none (some (refine_sh shl64ri)) (some (emulate_shl64 cpu))
        of_emu_full
  opcode_info shr64m =
      opc (m64rw ∷ []) shift_flags_of none (some (refine_sh shr64m)) (some (emulate_shr64 cpu))
        of_emu_full
  opcode_info shr64r =
      opc (r64rw ∷ []) shift_flags_of none (some (refine_sh shr64r)) (some (emulate_shr64 cpu))
        of_emu_full
  opcode_info shr64mi =
      opc (m64rw ∷ i8 ∷ []) eflags_mw none (some (refine_sh shr64mi)) (some (emulate_shr64 cpu))
        of_emu_full
  opcode_info shr64ri =
      opc (r64rw ∷ i8 ∷ []) eflags_mw none (some (refine_sh shr64ri)) (some (emulate_shr64 cpu))
        of_emu_full
  opcode_info sub8mr =
      opc (m8rw ∷ r8r ∷ []) eflags_w none none (some (emulate_sub cpu 8)) of_emu_imm
  opcode_info sub8rr =
      opc (r8rw ∷ r8r ∷ []) eflags_w none none (some (emulate_sub cpu 8)) of_emu_imm
  opcode_info sub8rm =
      opc (r8rw ∷ m8r ∷ []) eflags_w none none (some (emulate_sub cpu 8)) of_emu_imm
  opcode_info sub8mi = opc (m8rw ∷ i8 ∷ []) eflags_w none none (some (emulate_sub cpu 8)) of_emu_imm
  opcode_info sub8ri = opc (r8rw ∷ i8 ∷ []) eflags_w none none (some (emulate_sub cpu 8)) of_emu_imm
  opcode_info sub16mr =
      opc (m16rw ∷ r16r ∷ []) eflags_w none none (some (emulate_sub cpu 16)) of_emu_imm
  opcode_info sub16rr =
      opc (r16rw ∷ r16r ∷ []) eflags_w none none (some (emulate_sub cpu 16)) of_emu_imm
  opcode_info sub16rm =
      opc (r16rw ∷ m16r ∷ []) eflags_w none none (some (emulate_sub cpu 16)) of_emu_imm
  opcode_info sub16mi =
      opc (m16rw ∷ i16 ∷ []) eflags_w none none (some (emulate_sub cpu 16)) of_emu_imm
  opcode_info sub16ri =
      opc (r16rw ∷ i16 ∷ []) eflags_w none none (some (emulate_sub cpu 16)) of_emu_imm
  opcode_info sub32mr =
      opc (m32rw ∷ r32r ∷ []) eflags_w none none (some (emulate_sub cpu 32)) of_emu_imm
  opcode_info sub32rr =
      opc (r32rw ∷ r32r ∷ []) eflags_w none none (some (emulate_sub cpu 32)) of_emu_imm
  opcode_info sub32rm =
      opc (r32rw ∷ m32r ∷ []) eflags_w none none (some (emulate_sub cpu 32)) of_emu_imm
  opcode_info sub32mi =
      opc (m32rw ∷ i32 ∷ []) eflags_w none none (some (emulate_sub cpu 32)) of_emu_imm
  opcode_info sub32ri =
      opc (r32rw ∷ i32 ∷ []) eflags_w none none (some (emulate_sub cpu 32)) of_emu_imm
  opcode_info sub64mr =
      opc (m64rw ∷ r64r ∷ []) eflags_w none none (some (emulate_sub64 cpu)) of_emu_ptr
  opcode_info sub64rr =
      opc (r64rw ∷ r64r ∷ []) eflags_w none none (some (emulate_sub64 cpu)) of_emu_ptr
  opcode_info sub64rm =
      opc (r64rw ∷ m64r ∷ []) eflags_w none none (some (emulate_sub64 cpu)) of_emu_ptr
  opcode_info sub64mi =
      opc (m64rw ∷ s32 ∷ []) eflags_w none none (some (emulate_sub64 cpu)) of_emu_ptr
  opcode_info sub64ri =
      opc (r64rw ∷ s32 ∷ []) eflags_w none none (some (emulate_sub64 cpu)) of_emu_ptr
  opcode_info test8mr =
      opc (m8r ∷ r8r ∷ []) eflags_w none none (some (emulate_test8 cpu)) of_emu_full
  opcode_info test8mi =
      opc (m8r ∷ i8 ∷ []) eflags_w none none (some (emulate_test8 cpu)) of_emu_full
  opcode_info test8rr =
      opc (r8r ∷ r8r ∷ []) eflags_w none none (some (emulate_test8 cpu)) of_emu_full
  opcode_info test8ri =
      opc (r8r ∷ i8 ∷ []) eflags_w none none (some (emulate_test8 cpu)) of_emu_full
  opcode_info test16mr =
      opc (m16r ∷ r16r ∷ []) eflags_w none none (some (emulate_test16 cpu)) of_emu_full
  opcode_info test16mi =
      opc (m16r ∷ i16 ∷ []) eflags_w none none (some (emulate_test16 cpu)) of_emu_full
  opcode_info test16rr =
      opc (r16r ∷ r16r ∷ []) eflags_w none none (some (emulate_test16 cpu)) of_emu_full
  opcode_info test16ri =
      opc (r16r ∷ i16 ∷ []) eflags_w none none (some (emulate_test16 cpu)) of_emu_full
  opcode_info test32mr =
      opc (m32r ∷ r32r ∷ []) eflags_w none none (some (emulate_test32 cpu)) of_emu_full
  opcode_info test32mi =
      opc (m32r ∷ i32 ∷ []) eflags_w none none (some (emulate_test32 cpu)) of_emu_full
  opcode_info test32rr =
      opc (r32r ∷ r32r ∷ []) eflags_w none none (some (emulate_test32 cpu)) of_emu_full
  opcode_info test32ri =
      opc (r32r ∷ i32 ∷ []) eflags_w none none (some (emulate_test32 cpu)) of_emu_full
  opcode_info test64mr =
      opc (m64r ∷ r64r ∷ []) eflags_w none none (some (emulate_test64 cpu)) of_emu_full
  opcode_info test64mi =
      opc (m64r ∷ s32 ∷ []) eflags_w none none (some (emulate_test64 cpu)) of_emu_full
  opcode_info test64rr =
      opc (r64r ∷ r64r ∷ []) eflags_w none none (some (emulate_test64 cpu)) of_emu_full
  opcode_info test64ri =
      opc (r64r ∷ s32 ∷ []) eflags_w none none (some (emulate_test64 cpu)) of_emu_full
  opcode_info xor64mr =
      opc (m64rw ∷ r64r ∷ []) eflags_w none none (some (emulate_xor64 cpu)) of_emu_imm
  opcode_info xor64rr =
      opc (r64mrw ∷ r64mr ∷ []) eflags_w none (some (refine_xor_rr xor64rr))
        (some (emulate_xor64 cpu)) of_emu_imm
  opcode_info xor64rm =
      opc (r64rw ∷ m64r ∷ []) eflags_w none none (some (emulate_xor64 cpu)) of_emu_imm
  opcode_info xor64mi =
      opc (m64rw ∷ s32 ∷ []) eflags_w none none (some (emulate_xor64 cpu)) of_emu_imm
  opcode_info xor64ri =
      opc (r64rw ∷ s32 ∷ []) eflags_w none none (some (emulate_xor64 cpu)) of_emu_imm
  opcode_info xor32mr =
      opc (m32rw ∷ r32r ∷ []) eflags_w none none (some (emulate_xor32 cpu)) of_emu_imm
  opcode_info xor32rr =
      opc (r32mrw ∷ r32mr ∷ []) eflags_w none (some (refine_xor_rr xor32rr))
        (some (emulate_xor32 cpu)) of_emu_imm
  opcode_info xor32rm =
      opc (r32rw ∷ m32r ∷ []) eflags_w none none (some (emulate_xor32 cpu)) of_emu_imm
  opcode_info xor32mi =
      opc (m32rw ∷ i32 ∷ []) eflags_w none none (some (emulate_xor32 cpu)) of_emu_imm
  opcode_info xor32ri =
      opc (r32rw ∷ i32 ∷ []) eflags_w none none (some (emulate_xor32 cpu)) of_emu_imm
