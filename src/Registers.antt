-- ===== src/Registers.antt =====
-- The registers of x86-64 and what is known of each: `Register` of src/x86/arch_def.h, `RegisterType`,
-- `RegisterAccessType` and `RegisterInfo` of src/RegisterInfo.hpp, the table of src/x86/RegisterInfo.cpp,
-- and `getRegisterData` of src/ProgramState.cpp. Names and register masks are left out.
pub mod Places
pub mod Codes
use drob.Prelude.{ℕ, ◌+◌, ◌*◌, ◌/◌, Option, none, some, ◌>>=◌}

pub data Register : Type 0 where
  no_register : Register
  cf pf af zf sf of rax eax ax ah al rbx ebx bx bh bl rcx ecx cx ch cl rdx edx dx dh dl : Register
  rsi esi si sil rdi edi di dil rbp ebp bp bpl rsp esp sp spl r8 r8d r8w r8b r9 r9d r9w : Register
  r9b r10 r10d r10w r10b r11 r11d r11w r11b r12 r12d r12w r12b r13 r13d r13w r13b r14 r14d :
      Register
  r14w r14b r15 r15d r15w r15b xmm0 xmm1 xmm2 xmm3 xmm4 xmm5 xmm6 xmm7 xmm8 xmm9 xmm10 : Register
  xmm11 xmm12 xmm13 xmm14 xmm15 : Register

pub data RegisterType : Type 0 where
  flag1 gprs8 gprs16 gprs32 gprs64 sse128 : RegisterType

-- The number of the enumerator.
abbrev pub type_number : RegisterType → ℕ
type_number flag1 = 0
type_number gprs8 = 1
type_number gprs16 = 2
type_number gprs32 = 3
type_number gprs64 = 4
type_number sse128 = 5

pub data RegisterAccessType : Type 0 where
  no_access full_zero_parent full h0 h1 f0 f1 f2 f3 : RegisterAccessType

-- `RegisterInfo`: a register with a parent lies in the storage of the parent.
pub record RegisterInfo : Type 0 where
  pub type : RegisterType
  pub parent : Register
  pub nr : ℕ
  pub byte_offs : ℕ

-- `sizeInBytes`
unfoldable pub size_in_bytes : RegisterType → ℕ
size_in_bytes flag1 = 1
size_in_bytes gprs8 = 1
size_in_bytes gprs16 = 2
size_in_bytes gprs32 = 4
size_in_bytes gprs64 = 8
size_in_bytes sse128 = 16

-- `DEF_REG_SIMPLE` and `DEF_REG_XMM`
abbrev reg_info : RegisterType → Register → ℕ → ℕ → Option RegisterInfo
reg_info t p n o = some (record { type = t; parent = p; nr = n; byte_offs = o })

-- `arch_get_register_info` of a register: the rows of the table.
unfoldable pub arch_get_register_info : Register → Option RegisterInfo
arch_get_register_info no_register = none
arch_get_register_info cf = reg_info flag1 no_register 0 0
arch_get_register_info pf = reg_info flag1 no_register 1 0
arch_get_register_info af = reg_info flag1 no_register 2 0
arch_get_register_info zf = reg_info flag1 no_register 3 0
arch_get_register_info sf = reg_info flag1 no_register 4 0
arch_get_register_info of = reg_info flag1 no_register 5 0
arch_get_register_info rax = reg_info gprs64 no_register 0 0
arch_get_register_info eax = reg_info gprs32 rax 0 0
arch_get_register_info ax = reg_info gprs16 rax 0 0
arch_get_register_info ah = reg_info gprs8 rax 0 1
arch_get_register_info al = reg_info gprs8 rax 0 0
arch_get_register_info rbx = reg_info gprs64 no_register 1 0
arch_get_register_info ebx = reg_info gprs32 rbx 1 0
arch_get_register_info bx = reg_info gprs16 rbx 1 0
arch_get_register_info bh = reg_info gprs8 rbx 1 1
arch_get_register_info bl = reg_info gprs8 rbx 1 0
arch_get_register_info rcx = reg_info gprs64 no_register 2 0
arch_get_register_info ecx = reg_info gprs32 rcx 2 0
arch_get_register_info cx = reg_info gprs16 rcx 2 0
arch_get_register_info ch = reg_info gprs8 rcx 2 1
arch_get_register_info cl = reg_info gprs8 rcx 2 0
arch_get_register_info rdx = reg_info gprs64 no_register 3 0
arch_get_register_info edx = reg_info gprs32 rdx 3 0
arch_get_register_info dx = reg_info gprs16 rdx 3 0
arch_get_register_info dh = reg_info gprs8 rdx 3 1
arch_get_register_info dl = reg_info gprs8 rdx 3 0
arch_get_register_info rsi = reg_info gprs64 no_register 4 0
arch_get_register_info esi = reg_info gprs32 rsi 4 0
arch_get_register_info si = reg_info gprs16 rsi 4 0
arch_get_register_info sil = reg_info gprs8 rsi 4 0
arch_get_register_info rdi = reg_info gprs64 no_register 5 0
arch_get_register_info edi = reg_info gprs32 rdi 5 0
arch_get_register_info di = reg_info gprs16 rdi 5 0
arch_get_register_info dil = reg_info gprs8 rdi 5 0
arch_get_register_info rbp = reg_info gprs64 no_register 6 0
arch_get_register_info ebp = reg_info gprs32 rbp 6 0
arch_get_register_info bp = reg_info gprs16 rbp 6 0
arch_get_register_info bpl = reg_info gprs8 rbp 6 0
arch_get_register_info rsp = reg_info gprs64 no_register 7 0
arch_get_register_info esp = reg_info gprs32 rsp 7 0
arch_get_register_info sp = reg_info gprs16 rsp 7 0
arch_get_register_info spl = reg_info gprs8 rsp 7 0
arch_get_register_info r8 = reg_info gprs64 no_register 8 0
arch_get_register_info r8d = reg_info gprs32 r8 8 0
arch_get_register_info r8w = reg_info gprs16 r8 8 0
arch_get_register_info r8b = reg_info gprs8 r8 8 0
arch_get_register_info r9 = reg_info gprs64 no_register 9 0
arch_get_register_info r9d = reg_info gprs32 r9 9 0
arch_get_register_info r9w = reg_info gprs16 r9 9 0
arch_get_register_info r9b = reg_info gprs8 r9 9 0
arch_get_register_info r10 = reg_info gprs64 no_register 10 0
arch_get_register_info r10d = reg_info gprs32 r10 10 0
arch_get_register_info r10w = reg_info gprs16 r10 10 0
arch_get_register_info r10b = reg_info gprs8 r10 10 0
arch_get_register_info r11 = reg_info gprs64 no_register 11 0
arch_get_register_info r11d = reg_info gprs32 r11 11 0
arch_get_register_info r11w = reg_info gprs16 r11 11 0
arch_get_register_info r11b = reg_info gprs8 r11 11 0
arch_get_register_info r12 = reg_info gprs64 no_register 12 0
arch_get_register_info r12d = reg_info gprs32 r12 12 0
arch_get_register_info r12w = reg_info gprs16 r12 12 0
arch_get_register_info r12b = reg_info gprs8 r12 12 0
arch_get_register_info r13 = reg_info gprs64 no_register 13 0
arch_get_register_info r13d = reg_info gprs32 r13 13 0
arch_get_register_info r13w = reg_info gprs16 r13 13 0
arch_get_register_info r13b = reg_info gprs8 r13 13 0
arch_get_register_info r14 = reg_info gprs64 no_register 14 0
arch_get_register_info r14d = reg_info gprs32 r14 14 0
arch_get_register_info r14w = reg_info gprs16 r14 14 0
arch_get_register_info r14b = reg_info gprs8 r14 14 0
arch_get_register_info r15 = reg_info gprs64 no_register 15 0
arch_get_register_info r15d = reg_info gprs32 r15 15 0
arch_get_register_info r15w = reg_info gprs16 r15 15 0
arch_get_register_info r15b = reg_info gprs8 r15 15 0
arch_get_register_info xmm0 = reg_info sse128 no_register 0 0
arch_get_register_info xmm1 = reg_info sse128 no_register 1 0
arch_get_register_info xmm2 = reg_info sse128 no_register 2 0
arch_get_register_info xmm3 = reg_info sse128 no_register 3 0
arch_get_register_info xmm4 = reg_info sse128 no_register 4 0
arch_get_register_info xmm5 = reg_info sse128 no_register 5 0
arch_get_register_info xmm6 = reg_info sse128 no_register 6 0
arch_get_register_info xmm7 = reg_info sse128 no_register 7 0
arch_get_register_info xmm8 = reg_info sse128 no_register 8 0
arch_get_register_info xmm9 = reg_info sse128 no_register 9 0
arch_get_register_info xmm10 = reg_info sse128 no_register 10 0
arch_get_register_info xmm11 = reg_info sse128 no_register 11 0
arch_get_register_info xmm12 = reg_info sse128 no_register 12 0
arch_get_register_info xmm13 = reg_info sse128 no_register 13 0
arch_get_register_info xmm14 = reg_info sse128 no_register 14 0
arch_get_register_info xmm15 = reg_info sse128 no_register 15 0

-- Where an access goes: the array of physical registers, the number in it, the first byte and the
-- number of bytes.
pub record Place : Type 0 where
  pub file : RegisterType
  pub nr : ℕ
  pub byte_offset : ℕ
  pub bytes : ℕ

-- The part of a register at `offset` with `bytes` bytes that an access type names.
unfoldable pub access_part : RegisterAccessType → ℕ → ℕ → Option (ℕ × ℕ)
access_part full offset bytes = some (offset, bytes)
access_part h0 offset bytes = some (offset, bytes / 2)
access_part h1 offset bytes = some (offset + bytes / 2, bytes / 2)
access_part f0 offset bytes = some (offset, bytes / 4)
access_part f1 offset bytes = some (offset + bytes / 4, bytes / 4)
access_part f2 offset bytes = some (offset + bytes / 2, bytes / 4)
access_part f3 offset bytes = some (offset + 3 * bytes / 4, bytes / 4)
access_part _ offset bytes = none

-- The physical register: that of the parent, if there is one.
unfoldable pub storage : RegisterInfo → Option (RegisterType × ℕ)
unfolding arch_get_register_info
storage info = elim info.parent [
  | no_register ↦ some (info.type, info.nr)
  | p ↦ do pri ← arch_get_register_info p; some (pri.type, pri.nr)
]

-- Only these three types have storage of their own.
unfoldable pub has_storage : RegisterType → Option RegisterType
has_storage flag1 = some flag1
has_storage gprs64 = some gprs64
has_storage sse128 = some sse128
has_storage _ = none

unfoldable pub place_of : RegisterInfo → RegisterAccessType → Option Place
unfolding access_part storage has_storage size_in_bytes
place_of info access = do
  parent ← storage info
  part ← access_part access info.byte_offs (size_in_bytes info.type)
  file ← has_storage parent.0
  some (record { file = file; nr = parent.1; byte_offset = part.0; bytes = part.1 })

-- `getRegisterData`. A register with no entry in the table is a fault.
unfoldable pub get_register_data : Register → RegisterAccessType → Option Place
unfolding arch_get_register_info place_of
get_register_data reg full_zero_parent = do
  info ← arch_get_register_info reg
  parent ← arch_get_register_info info.parent
  place_of parent full
get_register_data reg access = do info ← arch_get_register_info reg; place_of info access
