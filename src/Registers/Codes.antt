-- ===== src/Registers/Codes.antt =====
-- The registers as numbers: the enumerators of `Register` of src/x86/arch_def.h, which `==` compares.
use drob.Prelude.{
  ℕ, zero, suc, ◌==◌, ◌≡◌, refl, ap, sym, ◌∙◌, Bool, true, Option, none, some, List, [], ◌∷◌,
  some-eq, ==_iff,
}
use drob.Registers.{
  Register, no_register, cf, pf, af, zf, sf, of, rax, eax, ax, ah, al, rbx, ebx, bx, bh, bl, rcx,
  ecx, cx, ch, cl, rdx, edx, dx, dh, dl, rsi, esi, si, sil, rdi, edi, di, dil, rbp, ebp, bp, bpl,
  rsp, esp, sp, spl, r8, r8d, r8w, r8b, r9, r9d, r9w, r9b, r10, r10d, r10w, r10b, r11, r11d, r11w,
  r11b, r12, r12d, r12w, r12b, r13, r13d, r13w, r13b, r14, r14d, r14w, r14b, r15, r15d, r15w, r15b,
  xmm0, xmm1, xmm2, xmm3, xmm4, xmm5, xmm6, xmm7, xmm8, xmm9, xmm10, xmm11, xmm12, xmm13, xmm14,
  xmm15,
}

-- The number of an enumerator, in the order of the list of registers.
unfoldable pub register_code : Register → ℕ
register_code no_register = 0
register_code cf = 1
register_code pf = 2
register_code af = 3
register_code zf = 4
register_code sf = 5
register_code of = 6
register_code rax = 7
register_code eax = 8
register_code ax = 9
register_code ah = 10
register_code al = 11
register_code rbx = 12
register_code ebx = 13
register_code bx = 14
register_code bh = 15
register_code bl = 16
register_code rcx = 17
register_code ecx = 18
register_code cx = 19
register_code ch = 20
register_code cl = 21
register_code rdx = 22
register_code edx = 23
register_code dx = 24
register_code dh = 25
register_code dl = 26
register_code rsi = 27
register_code esi = 28
register_code si = 29
register_code sil = 30
register_code rdi = 31
register_code edi = 32
register_code di = 33
register_code dil = 34
register_code rbp = 35
register_code ebp = 36
register_code bp = 37
register_code bpl = 38
register_code rsp = 39
register_code esp = 40
register_code sp = 41
register_code spl = 42
register_code r8 = 43
register_code r8d = 44
register_code r8w = 45
register_code r8b = 46
register_code r9 = 47
register_code r9d = 48
register_code r9w = 49
register_code r9b = 50
register_code r10 = 51
register_code r10d = 52
register_code r10w = 53
register_code r10b = 54
register_code r11 = 55
register_code r11d = 56
register_code r11w = 57
register_code r11b = 58
register_code r12 = 59
register_code r12d = 60
register_code r12w = 61
register_code r12b = 62
register_code r13 = 63
register_code r13d = 64
register_code r13w = 65
register_code r13b = 66
register_code r14 = 67
register_code r14d = 68
register_code r14w = 69
register_code r14b = 70
register_code r15 = 71
register_code r15d = 72
register_code r15w = 73
register_code r15b = 74
register_code xmm0 = 75
register_code xmm1 = 76
register_code xmm2 = 77
register_code xmm3 = 78
register_code xmm4 = 79
register_code xmm5 = 80
register_code xmm6 = 81
register_code xmm7 = 82
register_code xmm8 = 83
register_code xmm9 = 84
register_code xmm10 = 85
register_code xmm11 = 86
register_code xmm12 = 87
register_code xmm13 = 88
register_code xmm14 = 89
register_code xmm15 = 90

-- `reg == reg'`
abbrev pub register_eq : Register → Register → Bool
register_eq a b = register_code a == register_code b

all_registers : List Register
all_registers =
    no_register ∷ cf ∷ pf ∷ af ∷ zf ∷ sf ∷ of ∷ rax ∷ eax ∷ ax ∷ ah ∷ al ∷ rbx ∷ ebx ∷ bx ∷ bh ∷ bl
    ∷ rcx ∷ ecx ∷ cx ∷ ch ∷ cl ∷ rdx ∷ edx ∷ dx ∷ dh ∷ dl ∷ rsi ∷ esi ∷ si ∷ sil ∷ rdi ∷ edi ∷ di
    ∷ dil ∷ rbp ∷ ebp ∷ bp ∷ bpl ∷ rsp ∷ esp ∷ sp ∷ spl ∷ r8 ∷ r8d ∷ r8w ∷ r8b ∷ r9 ∷ r9d ∷ r9w
    ∷ r9b ∷ r10 ∷ r10d ∷ r10w ∷ r10b ∷ r11 ∷ r11d ∷ r11w ∷ r11b ∷ r12 ∷ r12d ∷ r12w ∷ r12b ∷ r13
    ∷ r13d ∷ r13w ∷ r13b ∷ r14 ∷ r14d ∷ r14w ∷ r14b ∷ r15 ∷ r15d ∷ r15w ∷ r15b ∷ xmm0 ∷ xmm1 ∷ xmm2
    ∷ xmm3 ∷ xmm4 ∷ xmm5 ∷ xmm6 ∷ xmm7 ∷ xmm8 ∷ xmm9 ∷ xmm10 ∷ xmm11 ∷ xmm12 ∷ xmm13 ∷ xmm14 ∷ xmm15
    ∷ []

at : List Register → ℕ → Option Register
at [] n = none
at (r ∷ rs) zero = some r
at (r ∷ rs) (suc n) = at rs n

at_code : (r : Register) → at all_registers (register_code r) ≡ some r
unfolding at all_registers register_code
at_code no_register = refl
at_code _ = refl

pub register_eq-eq : (a b : Register) → register_eq a b ≡ true → a ≡ b
register_eq-eq a b h =
    let e : register_code a ≡ register_code b = (==_iff (register_code a) (register_code b)).0 h in
    some-eq (sym (at_code a) ∙ ap (at all_registers) e ∙ at_code b)
