-- ===== src/Logger/Line.antt =====
-- The line that a statement of the log makes, and its size.
use my_net_lib.Common.{
  Bool-cases, List, [], ap, append-nil, append_assoc, ap₂, arith, false, if_false, if_true,
  if◌then◌else◌, inl, inr, length, length-append, ltb, refl, subst, sym, true, ℕ, ◌++◌, ◌+◌, ◌-◌,
  ◌<◌, ◌↔◌, ◌∙◌, ◌∷◌, ◌≡◌,
}
use my_net_lib.LogStream.{
  FixedBuffer, small_buffer_size, new_buffer, append_fixed, Item, text, texts, stream, stream_fits,
  stream_bounded,
}
use my_net_lib.Decimal.{decimal}
use my_net_lib.Logger.{
  level_number, level_name, LogLevel, trace, debug, info, warn, error, fatal, Site, head_items,
  func_items, tail_items, outputs, ending, new_logger, delete_logger, is_enabled, log,
}

stream-append :
    (b : FixedBuffer) (xs ys : List Item) → stream (stream b xs) ys ≡ stream b (xs ++ ys)
unfolding stream
stream-append b [] ys = refl
stream-append b (x ∷ xs) ys = stream-append (append_fixed (text x) b) xs ys

-- All that a statement streams.
abbrev pub line_items : LogLevel → Site → List Item → List Item
line_items level site items =
    head_items level site ++ (func_items level site ++ (items ++ tail_items site))

log_lem :
    (log_level level : LogLevel) (site : Site) (items : List Item)
    → is_enabled log_level level ≡ true
    → log log_level level site items
      ≡ outputs (stream (new_buffer small_buffer_size) (line_items level site items)).bytes
        ∷ ending level
unfolding log new_logger delete_logger
log_lem log_level level site items on =
    if_true _ _ on
    ∙ ap (λ b. outputs b.bytes ∷ ending level)
        (stream-append (new_logger level site) items (tail_items site)
          ∙ stream-append (stream (new_buffer small_buffer_size) (head_items level site))
              (func_items level site) (items ++ tail_items site)
          ∙ stream-append (new_buffer small_buffer_size) (head_items level site)
              (func_items level site ++ (items ++ tail_items site)))

texts-append : (xs ys : List Item) → texts (xs ++ ys) ≡ texts xs ++ texts ys
texts-append [] ys = refl
texts-append (x ∷ xs) ys =
    ap (λ t. text x ++ t) (texts-append xs ys) ∙ sym (append_assoc (text x) (texts xs) (texts ys))

-- The parts of a line: thread, time and level; the function, of a statement for debugging; what was
-- streamed; and the file with what passes for the line.
abbrev pub head_text : LogLevel → Site → List ℕ
head_text level site = site.tid ++ b' ' ∷ (site.time ++ b' ' ∷ (level_name level ++ b' ' ∷ []))

abbrev pub func_text : LogLevel → Site → List ℕ
func_text trace site = site.func ++ b' ' ∷ site.beyond
func_text debug site = site.func ++ b' ' ∷ site.beyond
func_text _ site = []

abbrev pub tail_text : Site → List ℕ
tail_text site =
    b' ' ∷ b'-' ∷ b' ' ∷ (site.filename ++ b':' ∷ (site.beyond ++ b'2' ∷ b'2' ∷ 10 ∷ []))

abbrev pub line_text : LogLevel → Site → List Item → List ℕ
line_text level site items =
    head_text level site ++ (func_text level site ++ (texts items ++ tail_text site))

texts-func_items :
    (level : LogLevel) (site : Site) → texts (func_items level site) ≡ func_text level site
texts-func_items trace site = ap (λ t. site.func ++ b' ' ∷ t) (append-nil site.beyond)
texts-func_items debug site = ap (λ t. site.func ++ b' ' ∷ t) (append-nil site.beyond)
texts-func_items info site = refl
texts-func_items warn site = refl
texts-func_items error site = refl
texts-func_items fatal site = refl

texts-tail_items : (site : Site) → texts (tail_items site) ≡ tail_text site
unfolding decimal
texts-tail_items site = refl

texts-line_items :
    (level : LogLevel) (site : Site) (items : List Item)
    → texts (line_items level site items) ≡ line_text level site items
texts-line_items level site items =
    texts-append (head_items level site) (func_items level site ++ (items ++ tail_items site))
    ∙ ap (λ t. head_text level site ++ t)
        (texts-append (func_items level site) (items ++ tail_items site)
          ∙ ap₂ ◌++◌ (texts-func_items level site) (
              texts-append items (tail_items site)
              ∙ ap (λ t. texts items ++ t) (texts-tail_items site)))

-- A statement whose level is enabled and whose line is shorter than the buffer hands exactly one
-- line to the output function: the thread, the time, the level, the function if it is for debugging,
-- what was streamed, and the file. FATAL flushes then and aborts.
pub log_fits :
    (log_level level : LogLevel) (site : Site) (items : List Item)
    → is_enabled log_level level ≡ true
    → length (line_text level site items) < small_buffer_size
    → log log_level level site items ≡ outputs (line_text level site items) ∷ ending level
log_fits log_level level site items on short =
    log_lem log_level level site items on
    ∙ ap (λ b. outputs b.bytes ∷ ending level)
        (stream_fits (new_buffer small_buffer_size) (line_items level site items)
          (omega (arith, ap length (texts-line_items level site items))))
    ∙ ap (λ t. outputs t ∷ ending level) (texts-line_items level site items)

-- Nothing is put out exactly when the statement is for TRACE, DEBUG or INFO and below the level that
-- is set.
pub log_filtered :
    (log_level level : LogLevel) (site : Site) (items : List Item)
    → (log log_level level site items ≡ [])
      ↔ ((level_number level < level_number log_level) × (level_number level < 3))
unfolding log delete_logger
log_filtered log_level trace site items = ground arith
log_filtered log_level debug site items = ground arith
log_filtered log_level info site items = ground arith
log_filtered log_level warn site items = ground arith
log_filtered log_level error site items = ground arith
log_filtered log_level fatal site items = ground arith

-- What was streamed into a line, however long, leaves one chunk of less than 4000 bytes that begins
-- with the thread, the time and the level.
pub log_bounded :
    (log_level level : LogLevel) (site : Site) (items : List Item)
    → is_enabled log_level level ≡ true
    → length (head_text level site) < small_buffer_size
    → (more : List ℕ) × (log log_level level site items
        ≡ outputs (head_text level site ++ more) ∷ ending level)
      × (length (head_text level site ++ more) < small_buffer_size)
unfolding stream
log_bounded log_level level site items on short =
    let head : FixedBuffer = record { size = small_buffer_size; bytes = head_text level site } in
    let rest : List Item = func_items level site ++ (items ++ tail_items site) in
    let begins : stream (new_buffer small_buffer_size) (head_items level site) ≡ head =
      stream_fits (new_buffer small_buffer_size) (head_items level site) (omega (arith, short)) in
    let (more, same, bound) = stream_bounded head rest short in
    (
      more,
      log_lem log_level level site items on
          ∙ ap (λ b. outputs b.bytes ∷ ending level)
              (sym (stream-append (new_buffer small_buffer_size) (head_items level site) rest)
                ∙ ap (λ b. stream b rest) begins)
          ∙ ap (λ t. outputs t ∷ ending level) same,
      subst (λ t. length t < small_buffer_size) same bound,
    )

-- The items that find room behind `used` bytes: each that leaves a byte free. The others are dropped,
-- each whole.
abbrev pub fitting : (used : ℕ) → List Item → List Item
fitting used [] = []
fitting used (item ∷ items) =
    let with_it = fitting (used + length (text item)) items in
    let without = fitting used items in
    if ltb (used + length (text item)) small_buffer_size then item ∷ with_it else without

stream_fitting :
    (bytes : List ℕ) (items : List Item)
    → (stream (record { size = small_buffer_size; bytes = bytes }) items).bytes
      ≡ bytes ++ texts (fitting (length bytes) items)
unfolding stream append_fixed
stream_fitting bytes [] = sym (append-nil bytes)
stream_fitting bytes (item ∷ items) =
    elim (Bool-cases (ltb (length bytes + length (text item)) small_buffer_size)) [
      | inl e ↦
          let room : ltb (length (text item)) (small_buffer_size - length bytes) ≡ true =
            ground arith in
          ap (λ (b : FixedBuffer). (stream b items).bytes) (if_true _ _ room)
          ∙ stream_fitting (bytes ++ text item) items
          ∙ append_assoc bytes (text item) _
          ∙ ap (λ n. bytes ++ (text item ++ texts (fitting n items)))
              (length-append bytes (text item))
          ∙ ap (λ is. bytes ++ texts is) (sym (if_true _ _ e))
      | inr e ↦
          let full : ltb (length (text item)) (small_buffer_size - length bytes) ≡ false =
            ground arith in
          ap (λ (b : FixedBuffer). (stream b items).bytes) (if_false _ _ full)
          ∙ stream_fitting bytes items
          ∙ ap (λ is. bytes ++ texts is) (sym (if_false _ _ e))
    ]

-- The line that a statement puts out, by what was streamed.
pub line_fitting :
    (log_level level : LogLevel) (site : Site) (items : List Item)
    → is_enabled log_level level ≡ true
    → log log_level level site items
      ≡ outputs (texts (fitting 0 (line_items level site items))) ∷ ending level
line_fitting log_level level site items on =
    log_lem log_level level site items on
    ∙ ap (λ t. outputs t ∷ ending level) (stream_fitting [] (line_items level site items))
