-- ===== src/Rpc.antt =====
-- common/buffer_wrapper.hpp and rpc/rpc_meta.hpp: serialised buffers, status codes, and what a
-- registered RPC handler gives back to the server.
pub mod Status
pub mod Buffers
pub mod Wire
pub mod Calls
pub mod Timers
pub mod Queues
use Status
use blobseer.Prelude.{
  ℕ, ◌<◌, ◌≡◌, refl, Bool, true, false, ◌&&◌, Option, none, some, List, [], ◌∷◌, length, ◌==◌,
}

-- The contents of a `buffer_wrapper`: `len` bytes.
abbrev pub Buffer : Type 0
Buffer = List ℕ

-- `buffer_wrapper::size`.
abbrev pub size : Buffer → ℕ
size b = length b

-- `operator==`: the lengths first, then the bytes.
unfoldable pub same_bytes : Buffer → Buffer → Bool
same_bytes [] [] = true
same_bytes (x ∷ xs) (y ∷ ys) = x == y && same_bytes xs ys
same_bytes _ _ = false

-- The Boost archives, which the buffers call to write and to read a value of type `A`. `decode`
-- is `none` where the archive throws. What is written is read back, and an archive is never empty.
pub record Codec (A : Type 0) : Type 0 where
  pub encode : A → Buffer
  pub decode : Buffer → Option A
  pub decode-encode : (a : A) → decode (encode a) ≡ some a
  pub encode_pos : (a : A) → 0 < length (encode a)

-- What `getValue(&val, true)` does: it throws on the empty buffer, answers false where the archive
-- throws, and else sets the value.
pub data Got (A : Type 0) : Type 0 where
  empty_buffer : Got A
  bad : Got A
  good : A → Got A

abbrev pub of_decoded : {A : Type 0} → Option A → Got A
of_decoded none = bad
of_decoded (some a) = good a

unfoldable pub get_value : {A : Type 0} → Codec A → Buffer → Got A
get_value c [] = empty_buffer
get_value c (x ∷ b) = of_decoded (c.decode (x ∷ b))

-- A handler that ends: it throws before it has changed anything, or it returns its status, the
-- result vector and the new state. `diverges` is a loop of the handler that never ends.
pub data Outcome (S : Type 0) : Type 0 where
  throws : Outcome S
  diverges : Outcome S
  returns : ℕ → List Buffer → S → Outcome S

-- One operand of the `||` chain that reads the parameters: a false `getValue` ends the handler
-- with `earg`.
unfoldable pub with_value : {A S : Type 0} → Got A → List Buffer → S → (A → Outcome S) → Outcome S
with_value empty_buffer result s k = throws
with_value bad result s k = returns Status.earg result s
with_value (good a) result s k = k a

-- A look-up, and what the handler does in each case.
unfoldable pub with_found : {A S : Type 0} → Option A → Outcome S → (A → Outcome S) → Outcome S
with_found none missing k = missing
with_found (some a) missing k = k a

-- Every way in which a handler returns satisfies `P`.
pub data Ends {S : Type 0} (P : ℕ → List Buffer → S → Type 0) : Outcome S → Type 0 where
  threw : Ends P throws
  hung : Ends P diverges
  ended :
      {status : ℕ} {result : List Buffer} {s : S}
      → P status result s
      → Ends P (returns status result s)

pub of_ended :
    {S : Type 0} {P : ℕ → List Buffer → S → Type 0} {status : ℕ} {result : List Buffer} {s : S}
    → Ends P (returns status result s)
    → P status result s
of_ended (ended h) = h

pub with_value-Ends :
    {A S : Type 0} {P : ℕ → List Buffer → S → Type 0} {k : A → Outcome S} (g : Got A)
    (result : List Buffer) (s : S)
    → P Status.earg result s
    → ((a : A) → Ends P (k a))
    → Ends P (with_value g result s k)
unfolding with_value
with_value-Ends empty_buffer result s h f = threw
with_value-Ends bad result s h f = ended h
with_value-Ends (good a) result s h f = f a

pub with_found-Ends :
    {A S : Type 0} {P : ℕ → List Buffer → S → Type 0} (o : Option A) {missing : Outcome S}
    {k : A → Outcome S}
    → Ends P missing
    → ((a : A) → o ≡ some a → Ends P (k a))
    → Ends P (with_found o missing k)
unfolding with_found
with_found-Ends none h f = h
with_found-Ends (some a) h f = f a refl

pub get_value-encode : {A : Type 0} (c : Codec A) (a : A) → get_value c (c.encode a) ≡ good a
get_value-encode c a = go (c.encode a) (c.encode_pos a) (c.decode-encode a)
  where
    go : (b : Buffer) → 0 < length b → c.decode b ≡ some a → get_value c b ≡ good a
    go [] h e = elim h [ ]
    go (x ∷ b) h e = unfold get_value in rw (e, of_decoded)
