-- ===== src/Pager/Buffers.antt =====
-- Writing a buffer's fields back into the list.
use netmalloc.Common.{ℕ, ◌≡◌, some, List, [], ◌∷◌, arith, ◌==◌, if◌then◌else◌}
use netmalloc.MappedBuffer.{MappedBuffer, get_buffer}
use netmalloc.Pager.{put_buffer}

pub get_buffer-pid :
    (p : ℕ) (bs : List MappedBuffer) (b : MappedBuffer) → get_buffer p bs ≡ some b → b.pid ≡ p
unfolding get_buffer
get_buffer-pid p [] b h = cc
get_buffer-pid p (c ∷ bs) b h = ground (arith, get_buffer-pid p bs b)

pub get_buffer-put :
    (p : ℕ) (b old : MappedBuffer) (bs : List MappedBuffer)
    → get_buffer b.pid bs ≡ some old
    → get_buffer p (put_buffer b bs) ≡ (if b.pid == p then some b else get_buffer p bs)
unfolding get_buffer put_buffer
get_buffer-put p b old [] h = cc
get_buffer-put p b old (c ∷ bs) h = ground (arith, get_buffer-put p b old bs)
