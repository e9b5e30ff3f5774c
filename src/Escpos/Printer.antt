-- ===== src/Escpos/Printer.antt =====
-- What an ESC/POS printer does with the bytes that it is sent, as far as the commands that the
-- encoders use: the marks that it makes, in order. It is the independent description that the
-- encoders are proved against.
use tera_agent.Base.{
  ℕ, zero, suc, ◌+◌, ◌*◌, ◌≡◌, refl, ap, sym, ◌∙◌, true, ◌&&◌, Option, none, some, List, [], ◌∷◌,
  ◌++◌, append_assoc, append-nil, leb, ◌==◌, if◌then◌else◌, length, take, drop, length-append,
  take-length-append, drop-length-append, ◌/◌, ◌%◌, ◌≤◌, ◌<◌, arith,
}
use tera_agent.Printing.{Bytes}

pub data Mark : Type 0 where
  reset : Mark
  row : Bytes → Mark
  feed : ℕ → Mark
  cut : Mark
  kick : Mark
  glyph : ℕ → Mark
  line_feed : Mark

-- The rows of a raster block, `width` bytes each.
unfoldable pub rows_of : ℕ → ℕ → Bytes → List Mark
rows_of width zero content = []
rows_of width (suc h) content = row (take width content) ∷ rows_of width h (drop width content)

abbrev Reading : Type 0
Reading = Option (List Mark × Bytes)

-- ESC J n
read_feed : Bytes → Reading
read_feed [] = none
read_feed (n ∷ rest) = some (feed n ∷ [], rest)

-- ESC p m t1 t2
read_kick : Bytes → Reading
read_kick (m ∷ t ∷ u ∷ rest) = some (kick ∷ [], rest)
read_kick _ = none

-- GS V 0
read_cut : Bytes → Reading
read_cut [] = none
read_cut (m ∷ rest) = if m == 0 then some (cut ∷ [], rest) else none

-- GS v 0 m xL xH yL yH, and the block behind it.
read_raster : Bytes → Reading
read_raster (k ∷ m ∷ xl ∷ xh ∷ yl ∷ yh ∷ rest) =
    let width = xl + 256 * xh in
    let height = yl + 256 * yh in
    if k == 0x30 && m == 0 && leb (width * height) (length rest)
    then some (rows_of width height (take (width * height) rest), drop (width * height) rest)
    else none
read_raster _ = none

read_escape : Bytes → Reading
unfolding read_feed read_kick
read_escape [] = none
read_escape (b ∷ rest) =
    if b == 0x40
    then some (reset ∷ [], rest)
    else if b == 0x4A
    then read_feed rest
    else if b == 0x70
    then read_kick rest
    else none

read_group : Bytes → Reading
unfolding read_cut read_raster
read_group [] = none
read_group (b ∷ rest) =
    if b == 0x56 then read_cut rest else if b == 0x76 then read_raster rest else none

-- One command, or one character.
pub read_command : ℕ → Bytes → Reading
unfolding read_escape read_group
read_command a rest =
    if a == 0x1B
    then read_escape rest
    else if a == 0x1D
    then read_group rest
    else if a == 10
    then some (line_feed ∷ [], rest)
    else if leb 0x20 a
    then some (glyph a ∷ [], rest)
    else none

abbrev pub prepend : List Mark → Option (List Mark) → Option (List Mark)
prepend ms none = none
prepend ms (some more) = some (ms ++ more)

follow : Reading → (Bytes → Option (List Mark)) → Option (List Mark)
follow none next = none
follow (some (ms, rest)) next = prepend ms (next rest)

-- The marks made by a sequence of commands, each read with one unit of fuel.
unfoldable pub interpret : ℕ → Bytes → Option (List Mark)
unfolding read_command follow
interpret zero bytes = none
interpret (suc fuel) [] = some []
interpret (suc fuel) (a ∷ rest) = follow (read_command a rest) (interpret fuel)

-- `n` commands that make the marks, whatever is sent behind them.
abbrev pub Emits : ℕ → Bytes → List Mark → Type 0
Emits n bytes ms =
    (fuel : ℕ) (rest : Bytes)
    → interpret (n + fuel) (bytes ++ rest) ≡ prepend ms (interpret fuel rest)

prepend-append :
    (ms ns : List Mark) (o : Option (List Mark)) → prepend ms (prepend ns o) ≡ prepend (ms ++ ns) o
prepend-append ms ns none = refl
prepend-append ms ns (some more) = ap some (sym (append_assoc ms ns more))

pub Emits-nil : Emits 0 [] []
Emits-nil fuel rest =
    let none_read : 0 + fuel ≡ fuel = omega arith in rw none_read (same (interpret fuel rest))
  where
    same : (o : Option (List Mark)) → o ≡ prepend [] o
    same none = refl
    same (some ms) = refl

pub Emits-append :
    (m n : ℕ) (a b : Bytes) (ms ns : List Mark)
    → Emits m a ms
    → Emits n b ns
    → Emits (m + n) (a ++ b) (ms ++ ns)
Emits-append m n a b ms ns ea eb fuel rest =
    let split : m + n + fuel ≡ m + (n + fuel) = omega arith in
    rw (split, append_assoc, ea (n + fuel) (b ++ rest), eb fuel rest) (prepend-append ms ns _)

-- A command that is read whole.
pub Emits-command :
    (a : ℕ) (bytes : Bytes) (ms : List Mark)
    → ((rest : Bytes) → read_command a (bytes ++ rest) ≡ some (ms, rest))
    → Emits 1 (a ∷ bytes) ms
Emits-command a bytes ms reads fuel rest =
    let one : 1 + fuel ≡ suc fuel = omega arith in
    rw one (unfold interpret in rw (reads rest, follow))

-- A sequence that makes its marks when nothing is sent behind it.
pub Emits-whole :
    (n : ℕ) (bytes : Bytes) (ms : List Mark) → Emits n bytes ms → interpret (n + 1) bytes ≡ some ms
unfolding interpret
Emits-whole n bytes ms e =
    ap (interpret (n + 1)) (sym (append-nil bytes)) ∙ e 1 [] ∙ ap some (append-nil ms)

-- Commands that make the marks, and how many there are.
pub record Makes (bytes : Bytes) (ms : List Mark) : Type 0 where
  pub commands : ℕ
  pub emits : Emits commands bytes ms

pub Makes-nil : Makes [] []
Makes-nil = record { commands = 0; emits = Emits-nil }

pub Makes-append :
    {a b : Bytes} {ms ns : List Mark} → Makes a ms → Makes b ns → Makes (a ++ b) (ms ++ ns)
Makes-append {a} {b} {ms} {ns} x y = record {
  commands = x.commands + y.commands;
  emits = Emits-append x.commands y.commands a b ms ns x.emits y.emits;
}

pub Makes-command :
    (a : ℕ) (bytes : Bytes) (ms : List Mark)
    → ((rest : Bytes) → read_command a (bytes ++ rest) ≡ some (ms, rest))
    → Makes (a ∷ bytes) ms
Makes-command a bytes ms reads = record { commands = 1; emits = Emits-command a bytes ms reads }

pub Makes-init : Makes (0x1B ∷ 0x40 ∷ []) (reset ∷ [])
unfolding read_command
Makes-init = Makes-command _ _ _ (λ rest. refl)

pub Makes-cut : Makes (0x1D ∷ 0x56 ∷ 0x00 ∷ []) (cut ∷ [])
unfolding read_command
Makes-cut = Makes-command _ _ _ (λ rest. refl)

pub Makes-drawer : Makes (0x1B ∷ 0x70 ∷ 0x00 ∷ 0x19 ∷ 0xFA ∷ []) (kick ∷ [])
unfolding read_command
Makes-drawer = Makes-command _ _ _ (λ rest. refl)

pub Makes-feed : (n : ℕ) → Makes (0x1B ∷ 0x4A ∷ n ∷ []) (feed n ∷ [])
unfolding read_command
Makes-feed n = Makes-command _ _ _ (λ rest. refl)

pub Makes-glyph : (c : ℕ) → 0x20 ≤ c → Makes (c ∷ []) (glyph c ∷ [])
unfolding read_command
Makes-glyph c h = Makes-command _ _ _ (λ rest. ground arith)

pub Makes-line_feed : Makes (10 ∷ []) (line_feed ∷ [])
unfolding read_command
Makes-line_feed = Makes-command _ _ _ (λ rest. refl)

-- A raster block of `h` rows of `width` bytes.
pub Makes-raster :
    (width h : ℕ) (rows : Bytes)
    → width < 65536
    → h < 65536
    → length rows ≡ width * h
    → Makes
        (0x1D
          ∷ 0x76
          ∷ 0x30
          ∷ 0x00
          ∷ (width % 256)
          ∷ (width / 256 % 256)
          ∷ (h % 256)
          ∷ (h / 256 % 256)
          ∷ rows)
        (rows_of width h rows)
unfolding read_command
Makes-raster width h rows fits_width fits_h size = Makes-command _ _ _ λ rest.
    let w_is : width % 256 + 256 * (width / 256 % 256) ≡ width = omega arith in
    let h_is : h % 256 + 256 * (h / 256 % 256) ≡ h = omega arith in
    let enough : leb (width * h) (length (rows ++ rest)) ≡ true =
      ground (arith, length-append rows rest) in
    rw (w_is, h_is, enough)
      (rw (
        take-length-append rows rest (width * h) (sym size),
        drop-length-append rows rest (width * h) (sym size),
      ))
