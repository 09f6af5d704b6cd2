-- ===== src/Random.antt =====
-- utils/utils.c: the pseudo-random addresses that the simulated user threads access, in the build
-- with USER_SIMULATION on. A shift of a 64-bit word is a division, or a product modulo 2 ^ 64.
pub mod Region
use Prim.Native.Nat.{bit_xor}
use memory_manager.Base.{ℕ, ◌+◌, ◌-◌, ◌*◌, ◌/◌, ◌%◌, ◌^◌, ◌==◌, ltb, leb, not, if◌then◌else◌}
use memory_manager.Config.{Vm, page_size, bytes_per_va}

-- The new seed and the value.
unfoldable pub xorshift64 : ℕ → ℕ × ℕ
xorshift64 seed =
    let a = bit_xor seed (seed / 2 ^ 12) in
    let b = bit_xor a (a * 2 ^ 25 % 2 ^ 64) in
    let x = bit_xor b (b / 2 ^ 27) in (x, x * 0x2545F4914F6CDD1D % 2 ^ 64)

-- The new seed and the address. The index counts pointers, and `&= ~0x7ULL` takes off its three
-- lowest bits.
unfoldable pub get_arbitrary_va : Vm → (seed : ℕ) → ℕ × ℕ
get_arbitrary_va vm seed =
    let (seed', random_value) = xorshift64 seed in
    let index = random_value % vm.va_size_in_pointers in
    (seed', vm.application_va_base + bytes_per_va * (index - index % 8))

-- The seed and the address. The 53 bits that are left of the random value are exact in a double,
-- and so is their product with 2 ^ -53; it is less than 0.125 if they are less than 2 ^ 50.
unfoldable pub get_next_va : Vm → (previous_va seed : ℕ) → ℕ × ℕ
get_next_va vm previous_va seed =
    let next = previous_va + bytes_per_va in
    let new_va =
      if leb (vm.application_va_base + bytes_per_va * vm.va_size_in_pointers) next
      then vm.application_va_base
      else next in
    if not (new_va % page_size == 0)
    then (seed, new_va)
    else let (seed', random_value) = xorshift64 seed in
      if ltb (random_value / 2 ^ 11) (2 ^ 50) then get_arbitrary_va vm seed' else (seed', new_va)
