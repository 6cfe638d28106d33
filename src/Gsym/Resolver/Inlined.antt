-- ===== src/Gsym/Resolver/Inlined.antt =====
-- Code information moves up by one layer: each inlined function is reported at its caller's line.
use mathlib.Core.List.{append_assoc}
use blazesym.Common.{ℕ, ◌≡◌, refl, ap, sym, ◌∙◌, Option, none, some, List, [], ◌∷◌, ◌++◌}
use blazesym.Symbolize.{CodeInfo, InlinedFn}
use blazesym.Common.Outcome.{Outcome, ok, ◌>>=◌, >>=-assoc, >>=-cong}
use blazesym.Gsym.Inline.{InlineInfo, inline_info}
use blazesym.Gsym.Parser.{GsymContext}
use blazesym.Gsym.Resolver.{Frames, push_behind, push_frame, push_frames, utf8_str, frame_code_info}

-- A frame as it is read: its name and its call site.
abbrev pub Read : Type 0
Read = List ℕ × Option CodeInfo

-- The loop over the frames, with what was read for each.
abbrev pub push_all : List Read → Frames → Frames
push_all [] frames = frames
push_all ((name, info) ∷ rest) frames = push_all rest (push_frame name info frames)

-- The names in order, each with the call site of the frame behind it, and `last` for the last.
abbrev pub shifted : List Read → (last : Option CodeInfo) → List InlinedFn
shifted [] last = []
shifted ((name, info) ∷ []) last = record { name = name; code_info = last } ∷ []
shifted ((name, info) ∷ (next, call) ∷ rest) last =
    record { name = name; code_info = call } ∷ shifted ((next, call) ∷ rest) last

push_behind-append :
    (front : List InlinedFn) (last : InlinedFn) (name : List ℕ) (info : Option CodeInfo)
    → push_behind (front ++ (last ∷ [])) name info
      ≡ front
        ++ (record last { code_info = info }
            ∷ record { name = name; code_info = last.code_info }
            ∷ [])
unfolding push_behind
push_behind-append [] last name info = refl
push_behind-append (x ∷ []) last name info = refl
push_behind-append (x ∷ y ∷ front) last name info =
    ap (λ (l : List InlinedFn). x ∷ l) (push_behind-append (y ∷ front) last name info)

push_frame-behind :
    (x : InlinedFn) (xs : List InlinedFn) (line_info : CodeInfo) (name : List ℕ)
    (info : Option CodeInfo)
    → push_frame name info (record { inlined = x ∷ xs; line_info = line_info })
      ≡ record { inlined = push_behind (x ∷ xs) name info; line_info = line_info }
unfolding push_frame
push_frame-behind x xs line_info name info = refl

push_frame-append :
    (front : List InlinedFn) (last : InlinedFn) (line_info : CodeInfo) (name : List ℕ)
    (info : Option CodeInfo)
    → push_frame name info (record { inlined = front ++ (last ∷ []); line_info = line_info })
      ≡ record {
        inlined =
            front
            ++ (record last { code_info = info }
                ∷ record { name = name; code_info = last.code_info }
                ∷ []);
        line_info = line_info;
      }
push_frame-append [] last line_info name info =
    push_frame-behind last [] line_info name info
    ∙ ap
        (λ (l : List InlinedFn).
          let f : Frames = record { inlined = l; line_info = line_info } in f)
        (push_behind-append [] last name info)
push_frame-append (x ∷ front) last line_info name info =
    push_frame-behind x (front ++ (last ∷ [])) line_info name info
    ∙ ap
        (λ (l : List InlinedFn).
          let f : Frames = record { inlined = l; line_info = line_info } in f)
        (push_behind-append (x ∷ front) last name info)

-- behind a last frame that still holds what the frames to come pass on
push_all-behind :
    (reads : List Read) (front : List InlinedFn) (name : List ℕ) (held : Option CodeInfo)
    (own : Option CodeInfo) (line_info : CodeInfo)
    → push_all reads (record {
      inlined = front ++ (record { name = name; code_info = held } ∷ []);
      line_info = line_info;
    })
      ≡ record { inlined = front ++ shifted ((name, own) ∷ reads) held; line_info = line_info }
push_all-behind [] front name held own line_info = refl
push_all-behind ((next, call) ∷ rest) front name held own line_info =
    let front' : List InlinedFn = front ++ (record { name = name; code_info = call } ∷ []) in
    ap (push_all rest) (
      push_frame-append front (record { name = name; code_info = held }) line_info next call
      ∙ ap
          (λ (l : List InlinedFn).
            let f : Frames = record { inlined = l; line_info = line_info } in f)
          (sym (append_assoc front (record { name = name; code_info = call } ∷ []) _)))
    ∙ push_all-behind rest front' next held call line_info
    ∙ ap
        (λ (l : List InlinedFn).
          let f : Frames = record { inlined = l; line_info = line_info } in f)
        (append_assoc front (record { name = name; code_info = call } ∷ []) _)

-- What the symbol and its inlined functions get: the symbol the outermost call site, the innermost
-- function the line of the address. A first frame without a call site keeps both as they are.
abbrev pub moved_up : List Read → CodeInfo → Frames
moved_up [] line_info = record { inlined = []; line_info = line_info }
moved_up ((name, none) ∷ rest) line_info = record {
  inlined = shifted ((name, none) ∷ rest) none;
  line_info = line_info;
}
moved_up ((name, some call) ∷ rest) line_info = record {
  inlined = shifted ((name, some call) ∷ rest) (some line_info);
  line_info = call;
}

pub push_all-moved_up :
    (reads : List Read) (line_info : CodeInfo)
    → push_all reads (record { inlined = []; line_info = line_info }) ≡ moved_up reads line_info
unfolding push_frame
push_all-moved_up [] line_info = refl
push_all-moved_up ((name, none) ∷ rest) line_info = push_all-behind rest [] name none none line_info
push_all-moved_up ((name, some call) ∷ rest) line_info =
    push_all-behind rest [] name (some line_info) (some call) call

-- the names and call sites of all frames, or the first error
abbrev pub read_frames : GsymContext → List InlineInfo → Outcome (List Read)
read_frames ctx [] = ok []
read_frames ctx (inline_info name call_file call_line ranges children ∷ rest) = do
  text ← utf8_str ctx name
  info ← frame_code_info ctx call_file call_line
  reads ← read_frames ctx rest
  ok ((text, info) ∷ reads)

push_frames-read_frames :
    (ctx : GsymContext) (stack : List InlineInfo) (frames : Frames)
    → push_frames ctx stack frames ≡ (read_frames ctx stack >>= λ reads. ok (push_all reads frames))
unfolding push_frames
push_frames-read_frames ctx [] frames = refl
push_frames-read_frames ctx (inline_info name file line ranges children ∷ rest) frames =
    let m1 : Outcome (List ℕ) = utf8_str ctx name in
    let m2 : Outcome (Option CodeInfo) = frame_code_info ctx file line in
    let m3 : Outcome (List Read) = read_frames ctx rest in
    let tail : (text : List ℕ) → Outcome (List Read) =
      λ text. m2 >>= λ info. m3 >>= λ reads. ok ((text, info) ∷ reads) in
    let k : List Read → Outcome Frames = λ reads. ok (push_all reads frames) in
    >>=-cong m1 _ (λ text. tail text >>= k)
      (λ text.
        >>=-cong m2 _ (λ info. (m3 >>= λ reads. ok ((text, info) ∷ reads)) >>= k)
          (λ info.
            push_frames-read_frames ctx rest (push_frame text info frames)
            ∙ sym (>>=-assoc m3 (λ reads. ok ((text, info) ∷ reads)) k))
        ∙ sym (>>=-assoc m2 (λ info. m3 >>= λ reads. ok ((text, info) ∷ reads)) k))
    ∙ sym (>>=-assoc m1 tail k)

-- Pushing all frames of an inline stack with the swaps of `fill_code_info` is the same as reading
-- the name and the call site of each, up to the first error, and then moving the code information
-- up by one layer: each inlined function is reported at the call site of the frame behind it and
-- the last at the line of the address, while the symbol gets the call site of the first frame.
-- Where the first frame has no call site, the symbol keeps the line of the address and the last
-- function gets none.
pub push_frames-moved_up :
    (ctx : GsymContext) (stack : List InlineInfo) (line_info : CodeInfo)
    → push_frames ctx stack (record { inlined = []; line_info = line_info })
      ≡ (read_frames ctx stack >>= λ reads. ok (moved_up reads line_info))
push_frames-moved_up ctx stack line_info =
    push_frames-read_frames ctx stack (record { inlined = []; line_info = line_info })
    ∙ >>=-cong (read_frames ctx stack) _ _ (λ reads. ap ok (push_all-moved_up reads line_info))
