-- ===== src/Kernel/Display/Bounds.antt =====
-- The cursor stays on the screen, and nothing behind the screen is written.
use sea_star_os.Base.{
  ℕ, zero, suc, ◌+◌, ◌-◌, ◌*◌, ◌≤◌, ◌<◌, bit_or, ◌≡◌, refl, ◌∙◌, ◌&&◌, List, [], ◌∷◌, arith, ltb,
  leb, if◌then◌else◌, u16, ◌<<<◌, update, update_lem,
}
use sea_star_os.Kernel.Display.{
  Screen, kernel_update_cursor, scroll_up, blank_cells, scroll, control, put_cell, wrap_row,
  kernel_putc, kernel_puts,
}

pub record IsOnScreen (s : Screen) : Type 0 where
  pub column : s.x_pos < 80
  pub row : s.y_pos < 25

scroll_up_lem :
    (left i : ℕ) (video : ℕ → ℕ) (k : ℕ)
    → scroll_up left i video k ≡ (if leb i k && ltb k (i + left) then video (k + 80) else video k)
unfolding scroll_up
scroll_up_lem zero i video k = ground arith
scroll_up_lem (suc left) i video k = ground (
  arith,
  scroll_up_lem left (i + 1) (update video i (video (i + 80))) k,
  update_lem video i (video (i + 80)) k,
  update_lem video i (video (i + 80)) (k + 80),
)

pub blank_cells_lem :
    (left cell i : ℕ) (video : ℕ → ℕ) (k : ℕ)
    → blank_cells left cell i video k ≡ (if leb i k && ltb k (i + left) then cell else video k)
unfolding blank_cells
blank_cells_lem zero cell i video k = ground arith
blank_cells_lem (suc left) cell i video k =
    ground
      (arith, blank_cells_lem left cell (i + 1) (update video i cell) k, update_lem video i cell k)

-- Below the last row, scroll moves every row up by one, blanks the last, puts the cursor on it and
-- leaves what is behind the screen alone; above, it does nothing.
pub scroll_lem :
    (s : Screen) (k : ℕ)
    → (scroll s).video k ≡ (
        if leb 25 s.y_pos
        then if ltb k 1920 then s.video (k + 80) else if ltb k 2000 then 32 else s.video k
        else s.video k)
      × ((scroll s).y_pos ≡ (if leb 25 s.y_pos then 24 else s.y_pos))
      × ((scroll s).x_pos ≡ s.x_pos)
unfolding scroll
scroll_lem s k = (
  ground (
    arith,
    blank_cells_lem 80 b' ' 1920 (scroll_up 1920 0 s.video) k,
    scroll_up_lem 1920 0 s.video k,
  ),
  ground arith,
  ground arith,
)

printed-IsOnScreen :
    (s : Screen) (c : ℕ)
    → IsOnScreen s
    → let t = wrap_row (put_cell (control s c) c) in (t.x_pos < 80) × (t.y_pos ≤ 25)
unfolding control put_cell wrap_row
printed-IsOnScreen s c v = ground arith

printed-video :
    (s : Screen) (c k : ℕ)
    → IsOnScreen s
    → 2000 ≤ k
    → (wrap_row (put_cell (control s c) c)).video k ≡ s.video k
unfolding control put_cell wrap_row
printed-video s c k v h = ground (
  arith,
  update_lem s.video (s.y_pos * 80 + s.x_pos) (bit_or c (u16 (s.color <<< 8))) k,
  update_lem s.video (s.y_pos * 80 + (s.x_pos - 1)) (bit_or c (u16 (s.color <<< 8))) k,
)

-- kernelPutc keeps the cursor on the screen, for every byte and colour, and writes no cell behind
-- the 25 rows of 80.
pub kernel_putc-IsOnScreen :
    (s : Screen) (c k : ℕ)
    → IsOnScreen s
    → 2000 ≤ k
    → IsOnScreen (kernel_putc s c) × ((kernel_putc s c).video k ≡ s.video k)
unfolding kernel_putc kernel_update_cursor
kernel_putc-IsOnScreen s c k v h =
    let t = wrap_row (put_cell (control s c) c) in
    ground (arith, scroll_lem t k, printed-IsOnScreen s c v, printed-video s c k v h)

-- From a cursor on the screen, a string of any bytes leaves the cursor on the screen and writes no
-- cell behind the 25 rows of 80.
pub kernel_puts-IsOnScreen :
    (str : List ℕ) (s : Screen) (k : ℕ)
    → IsOnScreen s
    → 2000 ≤ k
    → IsOnScreen (kernel_puts s str) × ((kernel_puts s str).video k ≡ s.video k)
unfolding kernel_puts
kernel_puts-IsOnScreen [] s k v h = (v, refl)
kernel_puts-IsOnScreen (c ∷ str) s k v h =
    let one = kernel_putc-IsOnScreen s c k v h in
    let rest = kernel_puts-IsOnScreen str (kernel_putc s c) k one.0 h in (rest.0, rest.1 ∙ one.1)
