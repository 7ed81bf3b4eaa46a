-- ===== src/Transfer/Mail.antt =====
-- What the MPI standard says of the messages behind MPI_Send and MPI_Recv (source/mpi_p2p.c): a
-- message is the bytes of the entries of the type map, in its order. Statuses lie outside the memory
-- that is described.
pub mod Places
pub mod Ends
pub mod Delivery
pub mod Later
pub mod Broadcast
pub mod Swap
pub mod Sample
pub mod Tests
use vapaa.Prelude.{
  ◌≡◌, ℕ, ◌*◌, Bool, true, false, not, ◌&&◌, ◌||◌, Option, some, List, [], ◌∷◌, map, ℤ, pos, eq_ℤ,
  ◌+ℤ◌, ◌*ℤ◌, length, tabulate, concat,
}
use vapaa.Mpi.Laws.{TypeInfo}
use vapaa.Cfi.{Desc}
use vapaa.Cfi.Quiet.{IsQuiet}
use vapaa.Cfi.Section.{offset_of}
use vapaa.Transfer.{Env}

-- What can be seen of a state: the byte at each address, the message that was last sent to a rank with
-- a tag on a communicator, and the message that a receive from a source, with a tag, on
-- a communicator gets.
pub record Mail (W : Type 0) : Type 0 where
  pub memory : W → ℤ → ℕ
  pub sent : W → ℤ → ℤ → ℤ → List ℕ
  pub arrived : W → ℤ → ℤ → ℤ → List ℕ

-- All that can be seen is as it was.
pub record Unseen {W : Type 0} (mail : Mail W) (w w' : W) : Type 0 where
  pub memory : mail.memory w' ≡ mail.memory w
  pub sent : mail.sent w' ≡ mail.sent w
  pub arrived : mail.arrived w' ≡ mail.arrived w

-- The addresses of e bytes from an address on.
abbrev pub bytes_at : ℕ → ℤ → List ℤ
bytes_at e a = tabulate e (λ j. a +ℤ pos j)

-- The addresses of the bytes of n entries of a datatype at an address, e for each basic element.
abbrev pub entry_bytes : (a : ℤ) (n e : ℕ) → TypeInfo → List ℤ
entry_bytes a n e i =
    concat
      (tabulate n (λ m. concat (map (λ d. bytes_at e (a +ℤ (i.extent *ℤ pos m +ℤ d))) i.disps)))

-- The addresses of the bytes of the first c elements of a section, in array element order.
abbrev pub section_bytes : Desc → ℕ → List ℤ
section_bytes desc c =
    concat (tabulate c (λ k. bytes_at desc.elem_len (desc.base_addr +ℤ offset_of desc k)))

abbrev pub contains : ℤ → List ℤ → Bool
contains x [] = false
contains x (y ∷ ys) = eq_ℤ x y || contains x ys

abbrev pub distinct : List ℤ → Bool
distinct [] = true
distinct (x ∷ xs) = not (contains x xs) && distinct xs

-- The bytes at some addresses are those given, and no other byte has changed.
pub record Stores (addresses : List ℤ) (bytes : List ℕ) (before after : ℤ → ℕ) : Type 0 where
  pub stored : map after addresses ≡ bytes
  pub elsewhere : (x : ℤ) → contains x addresses ≡ false → after x ≡ before x

pub record MailLaws {W : Type 0} (env : Env W) (view : W → ℤ → Option TypeInfo) (mail : Mail W)
    : Type 0 where
  -- Datatypes are made and freed behind the scenes.
  pub quiet : (w : W) → IsQuiet env.mpi (Unseen mail w)
  pub send_law :
      (a t dest tag comm : ℤ) (n e : ℕ) (w : W) {i : TypeInfo}
      → view w t ≡ some i
      → i.size ≡ length i.disps * e
      → mail.sent (env.messages.send a (pos n) t dest tag comm w).1 dest tag comm
        ≡ map (mail.memory w) (entry_bytes a n e i)
  pub send_memory :
      (a t dest tag comm : ℤ) (n : ℕ) (w : W)
      → mail.memory (env.messages.send a (pos n) t dest tag comm w).1 ≡ mail.memory w
  -- A message of as many bytes as there is room for, where no two entries overlap.
  pub recv_law :
      (a t source tag comm status : ℤ) (n e : ℕ) (w : W) {i : TypeInfo}
      → view w t ≡ some i
      → i.size ≡ length i.disps * e
      → distinct (entry_bytes a n e i) ≡ true
      → length (mail.arrived w source tag comm) ≡ length (entry_bytes a n e i)
      → Stores
          (entry_bytes a n e i)
          (mail.arrived w source tag comm)
          (mail.memory w)
          (mail.memory (env.messages.recv a (pos n) t source tag comm status w).1)
