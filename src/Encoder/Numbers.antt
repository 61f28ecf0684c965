-- ===== src/Encoder/Numbers.antt =====
-- The numbers of the registers in x86 machine code: `encodeReg` and `encodeAddrReg` of
-- src/x86/Encoder.cpp.
use drob.Prelude.{ℕ, Bool, true, false, Option, none, some}
use drob.Registers.{
  Register, al, ax, eax, rax, xmm0, cl, cx, ecx, rcx, xmm1, dl, dx, edx, rdx, xmm2, bl, bx, ebx,
  rbx, xmm3, ah, spl, sp, esp, rsp, xmm4, ch, bpl, bp, ebp, rbp, xmm5, dh, sil, si, esi, rsi, xmm6,
  bh, dil, di, edi, rdi, xmm7, r8b, r8w, r8d, r8, xmm8, r9b, r9w, r9d, r9, xmm9, r10b, r10w, r10d,
  r10, xmm10, r11b, r11w, r11d, r11, xmm11, r12b, r12w, r12d, r12, xmm12, r13b, r13w, r13d, r13,
  xmm13, r14b, r14w, r14d, r14, xmm14, r15b, r15w, r15d, r15, xmm15,
}

-- `encodeReg`: the number of a register. Others are refused.
unfoldable pub encode_reg : Register → Option ℕ
encode_reg al = some 0
encode_reg ax = some 0
encode_reg eax = some 0
encode_reg rax = some 0
encode_reg xmm0 = some 0
encode_reg cl = some 1
encode_reg cx = some 1
encode_reg ecx = some 1
encode_reg rcx = some 1
encode_reg xmm1 = some 1
encode_reg dl = some 2
encode_reg dx = some 2
encode_reg edx = some 2
encode_reg rdx = some 2
encode_reg xmm2 = some 2
encode_reg bl = some 3
encode_reg bx = some 3
encode_reg ebx = some 3
encode_reg rbx = some 3
encode_reg xmm3 = some 3
encode_reg ah = some 4
encode_reg spl = some 4
encode_reg sp = some 4
encode_reg esp = some 4
encode_reg rsp = some 4
encode_reg xmm4 = some 4
encode_reg ch = some 5
encode_reg bpl = some 5
encode_reg bp = some 5
encode_reg ebp = some 5
encode_reg rbp = some 5
encode_reg xmm5 = some 5
encode_reg dh = some 6
encode_reg sil = some 6
encode_reg si = some 6
encode_reg esi = some 6
encode_reg rsi = some 6
encode_reg xmm6 = some 6
encode_reg bh = some 7
encode_reg dil = some 7
encode_reg di = some 7
encode_reg edi = some 7
encode_reg rdi = some 7
encode_reg xmm7 = some 7
encode_reg r8b = some 8
encode_reg r8w = some 8
encode_reg r8d = some 8
encode_reg r8 = some 8
encode_reg xmm8 = some 8
encode_reg r9b = some 9
encode_reg r9w = some 9
encode_reg r9d = some 9
encode_reg r9 = some 9
encode_reg xmm9 = some 9
encode_reg r10b = some 10
encode_reg r10w = some 10
encode_reg r10d = some 10
encode_reg r10 = some 10
encode_reg xmm10 = some 10
encode_reg r11b = some 11
encode_reg r11w = some 11
encode_reg r11d = some 11
encode_reg r11 = some 11
encode_reg xmm11 = some 11
encode_reg r12b = some 12
encode_reg r12w = some 12
encode_reg r12d = some 12
encode_reg r12 = some 12
encode_reg xmm12 = some 12
encode_reg r13b = some 13
encode_reg r13w = some 13
encode_reg r13d = some 13
encode_reg r13 = some 13
encode_reg xmm13 = some 13
encode_reg r14b = some 14
encode_reg r14w = some 14
encode_reg r14d = some 14
encode_reg r14 = some 14
encode_reg xmm14 = some 14
encode_reg r15b = some 15
encode_reg r15w = some 15
encode_reg r15d = some 15
encode_reg r15 = some 15
encode_reg xmm15 = some 15
encode_reg _ = none

-- `encodeAddrReg`: the number of a register in an address, and whether it sets `is32`.
unfoldable pub encode_addr_reg : Register → Option (ℕ × Bool)
encode_addr_reg eax = some (0, true)
encode_addr_reg rax = some (0, false)
encode_addr_reg ecx = some (1, true)
encode_addr_reg rcx = some (1, false)
encode_addr_reg edx = some (2, true)
encode_addr_reg rdx = some (2, false)
encode_addr_reg ebx = some (3, true)
encode_addr_reg rbx = some (3, false)
encode_addr_reg esp = some (4, true)
encode_addr_reg rsp = some (4, false)
encode_addr_reg ebp = some (5, true)
encode_addr_reg rbp = some (5, false)
encode_addr_reg esi = some (6, true)
encode_addr_reg rsi = some (6, false)
encode_addr_reg edi = some (7, true)
encode_addr_reg rdi = some (7, false)
encode_addr_reg r8 = some (8, false)
encode_addr_reg r9 = some (9, false)
encode_addr_reg r10 = some (10, false)
encode_addr_reg r11 = some (11, false)
encode_addr_reg r12 = some (12, false)
encode_addr_reg r13 = some (13, false)
encode_addr_reg r14 = some (14, false)
encode_addr_reg r15 = some (15, false)
encode_addr_reg _ = none
