-- ===== src/EventLoop/Lifetime.antt =====
-- The closing of a socket's or an event loop's descriptor in ffi/network.c: by hand, and by the
-- finalizer.
use linen.Base.{ℕ, zero, suc, ◌≡◌, refl, ◌∙◌, ap, Option, none, some, pos, negsuc, Fd, Errno}
use linen.EventLoop.{close_after, close_handle, finalize_handle}

module _ {W : Type 0} (close : ℕ → W → Option Errno × W) where
  -- a handle that is closed n times by hand, and then finalized
  unfoldable pub handle_life : ℕ → Fd → W → W
  handle_life zero h w = finalize_handle close h w
  handle_life (suc n) h w = let (_, h', w') = close_handle close h w in handle_life n h' w'

  handle_life-closed : (n k : ℕ) (w : W) → handle_life n (negsuc k) w ≡ w
  unfolding handle_life close_handle close_after finalize_handle
  handle_life-closed zero k w = refl
  handle_life-closed (suc n) k w = handle_life-closed n k w

  -- However often a handle is closed by hand before it is finalized, `close` is called on its
  -- descriptor once, if that call succeeds.
  pub handle_life_once :
      (n fd : ℕ) (w : W) → (close fd w).0 ≡ none → handle_life n (pos fd) w ≡ (close fd w).1
  unfolding handle_life close_handle close_after finalize_handle
  handle_life_once zero fd w h = refl
  handle_life_once (suc n) fd w h =
      ap (λ r. handle_life n (close_after fd r).1 (close fd w).1) h
      ∙ handle_life-closed n 0 (close fd w).1

  -- If a `close` by hand fails, the handle keeps the descriptor, and the finalizer closes that number
  -- again.
  pub handle_life-recloses :
      (fd : ℕ) (w : W) (e : Errno)
      → (close fd w).0 ≡ some e
      → handle_life 1 (pos fd) w ≡ (close fd (close fd w).1).1
  unfolding handle_life close_handle close_after finalize_handle
  handle_life-recloses fd w e h =
      ap (λ r. finalize_handle close (close_after fd r).1 (close fd w).1) h
