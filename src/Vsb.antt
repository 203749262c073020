-- ===== src/Vsb.antt =====
-- The string buffer of lib/libvarnish/vsb.c. The buffer is the list of its `s_size` bytes, and each
-- flag bit is a field. The C library's allocator is a parameter: `malloc n` is the new block, with
-- whatever bytes it holds, or none for NULL. A return value of 0 is `true`, and -1 is `false`.
pub mod Size
pub mod Inv
pub mod Append
mod Tests
pub mod Finish
mod Write
pub mod Printf
pub mod Grows
use Size.{extend_size, to_int}
use varnish.Prelude.{
  ℕ, zero, suc, ◌+◌, ◌-◌, ◌%◌, ◌^◌, ◌≤◌, ◌<◌, ◌≡◌, Bool, true, false, Option, none, some, List, [],
  ◌∷◌, ◌++◌, ltb, leb, ◌==◌, if◌then◌else◌, not, length, take, set, get_or, ◌&&◌, ◌||◌,
}
use varnish.Prelude.Checked.{Checked, ok, panic, assert, ◌>>=◌, ◌>>◌}
use varnish.Ctype.{is_space}

-- `struct vsb`
pub record Vsb : Type 0 where
  pub buf : List ℕ
  pub size : ℕ
  pub len : ℕ
  pub autoextend : Bool
  pub dynamic : Bool
  pub finished : Bool
  pub overflowed : Bool
  pub dynstruct : Bool

-- VSB_HASROOM, VSB_FREESPACE; `size_t` subtraction wraps
abbrev pub has_room : Vsb → Bool
has_room s = ltb s.len ((s.size + 2 ^ 64 - 1) % 2 ^ 64)

abbrev pub free_space : Vsb → ℕ
free_space s = (s.size + 2 ^ 64 - (s.len + 1)) % 2 ^ 64

-- vsb_assert_integrity; a NULL or uninitialised vsb is no `Vsb`
abbrev pub integrity : Vsb → Checked (Unit {0})
integrity s = assert (ltb s.len s.size)

-- vsb_assert_state(s, 0) and vsb_assert_state(s, VSB_FINISHED)
abbrev pub unfinished : Vsb → Checked (Unit {0})
unfinished s = assert (not s.finished)

-- s->s_buf[s->s_len++] = c
abbrev pub store : Vsb → ℕ → Vsb
store s c = record s { buf = set s.buf s.len c; len = s.len + 1 }

-- memcpy over the front of a block
abbrev pub overlay : List ℕ → List ℕ → List ℕ
overlay [] ys = ys
overlay (x ∷ xs) [] = []
overlay (x ∷ xs) (y ∷ ys) = x ∷ overlay xs ys

-- bytes written into the buffer from an index on
abbrev pub write_at : List ℕ → ℕ → List ℕ → List ℕ
write_at buf i [] = buf
write_at buf i (b ∷ bs) = write_at (set buf i b) (i + 1) bs

-- The end of vsb_vprintf: a vsb of fixed length that is full is marked as overflowed,
unfoldable pub mark : Vsb → Vsb
mark s = if not (has_room s) && not s.autoextend then record s { overflowed = true } else s

-- after the text has been counted.
unfoldable pub settle : Vsb → List ℕ → Vsb
settle s text =
    let room = free_space s in
    mark (record s { len = s.len + (if ltb (length text) room then length text else room) })

module _ (malloc : ℕ → Option (List ℕ)) where
  -- `none` is -1
  unfoldable pub extend : Vsb → ℕ → Checked (Option Vsb)
  extend s addlen = elim s.autoextend [
    | false ↦ ok none
    | true ↦ extend_size (to_int (s.size + addlen)) >>= (λ newsize. ok (elim (malloc newsize) [
      | none ↦ none
      | some newbuf ↦
          some
            (record s { buf = overlay (take s.size s.buf) newbuf; size = newsize; dynamic = true })
    ]))
  ]

  -- The arguments say whether the caller gives the struct and the buffer, and whether a struct can
  -- be allocated. `none` is NULL.
  unfoldable pub new : Bool → Bool → Option (List ℕ) → ℕ → Bool → Checked (Option Vsb)
  new given can_alloc buf len auto = elim (given || can_alloc) [
    | false ↦ ok none
    | true ↦ elim buf [
      | some b ↦ ok (some (fresh b len false))
      | none ↦
          (if auto then extend_size (to_int len) else ok len)
          >>= (λ size. ok (elim (malloc size) [ none ↦ none | some b ↦ some (fresh b size true) ]))
    ]
  ]
    where
      fresh : List ℕ → ℕ → Bool → Vsb
      fresh b size dyn = record {
        buf = b;
        size = size;
        len = 0;
        autoextend = auto;
        dynamic = dyn;
        finished = false;
        overflowed = false;
        dynstruct = not given;
      }

  -- the condition of the loops: room for one byte, or an extension for the `n` that are left
  unfoldable pub make_room : Vsb → ℕ → Checked (Option Vsb)
  make_room s n = elim (has_room s) [ true ↦ ok (some s) | false ↦ extend s n ]

  -- the loop of vsb_bcat, and of vsb_cat over the bytes before the NUL
  unfoldable pub append : Vsb → List ℕ → Checked (Bool × Vsb)
  append s [] = ok (true, s)
  append s (b ∷ bs) =
      make_room s (length (b ∷ bs))
      >>= (λ r. elim r [ none ↦ ok (false, s) | some s' ↦ append (store s' b) bs ])

  abbrev pub flag : Bool × Vsb → Bool × Vsb
  flag (true, s) = (true, s)
  flag (false, s) = (false, record s { overflowed = true })

  unfoldable pub bcat : Vsb → List ℕ → Checked (Bool × Vsb)
  bcat s t = do
    integrity s
    unfinished s
    if s.overflowed then ok (false, s) else (append s t >>= λ r. ok (flag r))

  -- vsb_cat of the text `t`
  unfoldable pub cat : Vsb → List ℕ → Checked (Bool × Vsb)
  cat s t = do
    integrity s
    unfinished s
    if s.overflowed then ok (false, s) else (append s t >>= λ r. ok (flag r))

  -- The first round of the loop in vsb_vprintf: the text is cut at the free space, and the buffer is
  -- extended if it is longer. `text` is what `vsnprintf` makes of the format and the arguments; it
  -- writes at most `free_space s` bytes of it and a NUL.
  -- `none` means that the fuel ran out.
  unfoldable pub format : ℕ → Vsb → List ℕ → Checked (Option Vsb)
  format zero s text = ok none
  format (suc fuel) s text =
      let s1 = record s { buf = write_at s.buf s.len (take (free_space s) text ++ 0 ∷ []) } in
      elim (ltb (free_space s) (length text)) [
        | false ↦ ok (some s1)
        | true ↦
            extend s1 (length text - free_space s)
            >>= (λ r. elim r [ none ↦ ok (some s1) | some s2 ↦ format fuel s2 text ])
      ]

  unfoldable pub printf : Vsb → List ℕ → Checked (Option (Bool × Vsb))
  printf s text = do
    integrity s
    unfinished s
    if s.overflowed
        then ok (some (false, s))
        else (format 2 s text >>= λ r. elim r [
          | none ↦ ok none
          | some s1 ↦ (do
            assert (ltb (settle s1 text).len (settle s1 text).size)
            ok (some (not (settle s1 text).overflowed, settle s1 text)))
        ])

  unfoldable pub putc : Vsb → ℕ → Checked (Bool × Vsb)
  putc s c = do
    integrity s
    unfinished s
    if s.overflowed
        then ok (false, s)
        else (make_room s 1 >>= λ r. elim r [
          | none ↦ ok (false, record s { overflowed = true })
          | some s' ↦ ok (true, if c == 0 then s' else store s' c)
        ])

unfoldable pub clear : Vsb → Checked Vsb
clear s = do integrity s; ok (record s { finished = false; overflowed = false; len = 0 })

module _ (malloc : ℕ → Option (List ℕ)) where
  unfoldable pub bcpy : Vsb → List ℕ → Checked (Bool × Vsb)
  unfolding clear bcat
  bcpy s t = do integrity s; unfinished s; s' ← clear s; bcat malloc s' t

  unfoldable pub cpy : Vsb → List ℕ → Checked (Bool × Vsb)
  unfolding clear cat
  cpy s t = do integrity s; unfinished s; s' ← clear s; cat malloc s' t

-- A negative position is no argument of the model; the code asserts that there is none.
unfoldable pub setpos : Vsb → ℕ → Checked (Bool × Vsb)
setpos s pos = do
  integrity s
  unfinished s
  assert (ltb pos s.size)
  ok (if ltb s.len pos then (false, s) else (true, record s { len = pos }))

-- while (s->s_len && isspace(s->s_buf[s->s_len-1])) --s->s_len;
unfoldable pub trim_len : List ℕ → ℕ → ℕ
unfolding is_space
trim_len buf zero = zero
trim_len buf (suc n) = elim (is_space (get_or buf n 0)) [ true ↦ trim_len buf n | false ↦ suc n ]

unfoldable pub trim : Vsb → Checked (Bool × Vsb)
unfolding trim_len
trim s = do
  integrity s
  unfinished s
  ok (if s.overflowed then (false, s) else (true, record s { len = trim_len s.buf s.len }))

-- vsb_overflowed
abbrev pub is_overflowed : Vsb → Bool
is_overflowed s = s.overflowed

-- vsb_done
abbrev pub done : Vsb → Bool
done s = s.finished

unfoldable pub finish : Vsb → Checked Vsb
finish s = do
  integrity s
  unfinished s
  ok (record s { buf = set s.buf s.len 0; overflowed = false; finished = true })

-- the buffer
unfoldable pub text : Vsb → Checked (List ℕ)
text s = do integrity s; assert s.finished; ok s.buf

-- `none` is -1. (A length of 2^31 or more would not fit the `int` that vsb_len returns.)
unfoldable pub len : Vsb → Checked (Option ℕ)
len s = do integrity s; ok (if s.overflowed then none else some s.len)

-- vsb_delete frees the buffer and the struct that it allocated: the flags that it tests say which.
unfoldable pub delete : Vsb → Checked (Bool × Bool)
delete s = do integrity s; ok (s.dynamic, s.dynstruct)
