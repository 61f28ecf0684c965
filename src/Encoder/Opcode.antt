-- ===== src/Encoder/Opcode.antt =====
-- The opcodes that src/x86/Encoder.cpp knows, of the list in src/x86/Opcodes.inc.h.

pub data Opcode : Type 0 where
  add8mr add16mr add32mr add64mr add8rr add16rr add32rr add64rr add8rm add16rm : Opcode
  add32rm add64rm add8mi add16mi add32mi add64mi add8ri add16ri add32ri add64ri : Opcode
  addpdrr addpdrm addsdrr addsdrm callr callm cmp8mr cmp8mi cmp8rm cmp8rr : Opcode
  cmp8ri cmp16mr cmp16mi cmp16rm cmp16rr cmp16ri cmp32mr cmp32mi cmp32rm cmp32rr : Opcode
  cmp32ri cmp64mr cmp64mi cmp64rm cmp64rr cmp64ri jmpr jmpm lea16ra lea32ra : Opcode
  lea64ra mov64mr mov64rr mov64rm mov64mi mov64ri mov32mr mov32rr mov32rm mov32mi : Opcode
  mov32ri movapdrm movapdrr movapdmr movsdrm movsdrr movsdmr movupdmr movupdrr movupdrm : Opcode
  movupsmr movupsrr movupsrm mulpdrr mulpdrm mulsdrr mulsdrm pop16m pop16r pop64m : Opcode
  pop64r push16m push16r push16i push64m push64r push64i pxor128rr pxor128rm shl64m : Opcode
  shl64r shl64mi shl64ri shr64m shr64r shr64mi shr64ri sub8mr sub16mr sub32mr : Opcode
  sub64mr sub8rr sub16rr sub32rr sub64rr sub8rm sub16rm sub32rm sub64rm sub8mi : Opcode
  sub16mi sub32mi sub64mi sub8ri sub16ri sub32ri sub64ri test8mr test8mi test8rr : Opcode
  test8ri test16mr test16mi test16rr test16ri test32mr test32mi test32rr test32ri test64mr : Opcode
  test64mi test64rr test64ri xor64mr xor64rr xor64rm xor64mi xor64ri xor32mr xor32rr : Opcode
  xor32rm xor32mi xor32ri joa jnoa jba jnba jza jnza jbea : Opcode
  jnbea jsa jnsa jpa jnpa jla jnla jlea jnlea jcxz32a : Opcode
  jcxz64a jmpa calla ret : Opcode
