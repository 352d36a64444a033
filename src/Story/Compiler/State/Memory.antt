-- ===== src/Story/Compiler/State/Memory.antt =====
-- The dedupe memory: how long a fingerprint is remembered.
use mathlib.Core.List.{append_assoc}
use agent_feed.Prelude.{
  ==_refl, Bool-cases, Distinct, Distinct-drop, Distinct-snoc, List, [], any_eq, any_eq-append, ap,
  arith, drop, drop-append, false, inl, inr, length, length-append, length-drop, list_eq, ltb,
  ltb→lt, map, max, nat_eq, option_eq, pair_eq, refl, suc, sym, true, zero, ℕ, ◌++◌, ◌+◌, ◌-◌, ◌<◌,
  ◌∙◌, ◌∷◌, ◌≡◌, ◌≤◌,
}
use agent_feed.Story.Compiler.State.{
  StoryCompiler, accept_story, remember, story_fingerprint, trim_front,
}
use agent_feed.Story.Types.{CompiledStory}
use agent_feed.Text.{Str}

drop_none {ℓ} : {A : Type ℓ} (n : ℕ) (xs : List A) → n ≡ 0 → drop n xs ≡ xs
drop_none zero xs h = refl
drop_none (suc n) xs h = absurd (omega arith)

-- With as many rounds as there are fingerprints the loop ends, and it has dropped from the front
-- exactly the fingerprints over the limit.
pub trim_front-eq-drop :
    (fuel limit : ℕ) (xs : List Str)
    → length xs ≤ fuel
    → trim_front fuel limit xs ≡ drop (length xs - limit) xs
unfolding trim_front
trim_front-eq-drop zero limit [] h = sym (drop_none _ _ (omega arith))
trim_front-eq-drop zero limit (x ∷ xs) h = absurd (omega arith)
trim_front-eq-drop (suc fuel) limit [] h =
    let e : 0 - limit ≡ 0 = omega arith in ground (arith, drop_none {A = Str} (0 - limit) [] e)
trim_front-eq-drop (suc fuel) limit (x ∷ xs) h = elim (Bool-cases (ltb limit (length (x ∷ xs)))) [
  | inl more ↦
      let e : length (x ∷ xs) - limit ≡ suc (length xs - limit) =
        omega (arith, ltb→lt limit (length (x ∷ xs)) more) in
      rw (more, e) (trim_front-eq-drop fuel limit xs (omega arith))
  | inr done ↦ rw done (sym (drop_none _ (x ∷ xs) (ground arith)))
]

-- What the memory keeps in order.
pub record IsMemory (dedupe_window : ℕ) (recent : List Str) : Type 0 where
  pub bounded : length recent ≤ max dedupe_window 1
  pub distinct : Distinct recent

pub remember_new :
    (w : ℕ) (recent : List Str) (f : Str)
    → any_eq recent f ≡ false
    → remember w recent f ≡ (drop (length recent + 1 - max w 1) (recent ++ f ∷ []), true)
unfolding remember
remember_new w recent f h =
    let e : length (recent ++ f ∷ []) ≡ length recent + 1 =
      omega (arith, length-append recent (f ∷ [])) in
    rw h (
      ap (λ (r : List Str). (r, true))
        (trim_front-eq-drop _ (max w 1) (recent ++ f ∷ []) (omega arith)
          ∙ ap (λ n. drop (n - max w 1) (recent ++ f ∷ [])) e))

pub remember-IsMemory :
    (w : ℕ) (recent : List Str) (f : Str) → IsMemory w recent → IsMemory w (remember w recent f).0
remember-IsMemory w recent f m = elim (Bool-cases (any_eq recent f)) [
  | inl old ↦ unfold remember in rw old m
  | inr new ↦ rw (remember_new w recent f new) (record {
    bounded = omega (
      arith,
      length-drop (length recent + 1 - max w 1) (recent ++ f ∷ []),
      length-append recent (f ∷ []),
    );
    distinct = Distinct-drop _ _ (Distinct-snoc recent f m.distinct new);
  })
]

-- At most `k` fingerprints stand behind `f`.
Behind : ℕ → Str → List Str → Type 0
Behind k f recent =
    (front : List Str) × (back : List Str) × (recent ≡ front ++ f ∷ back) × (length back ≤ k)

Behind-any_eq : (k : ℕ) (f : Str) (recent : List Str) → Behind k f recent → any_eq recent f ≡ true
unfolding Behind any_eq
Behind-any_eq k f recent (front, back, e, h) =
    rw (e, any_eq-append front (f ∷ back) f) (ground (arith, ==_refl f))

Behind-le : (j k : ℕ) (f : Str) (recent : List Str) → j ≤ k → Behind j f recent → Behind k f recent
unfolding Behind
Behind-le j k f recent le (front, back, e, h) = (front, back, e, omega arith)

remember-Behind_new :
    (w : ℕ) (recent : List Str) (f : Str)
    → any_eq recent f ≡ false
    → Behind 0 f (remember w recent f).0
unfolding Behind
remember-Behind_new w recent f h = (
  drop (length recent + 1 - max w 1) recent,
  [],
  rw (remember_new w recent f h) (drop-append _ recent (f ∷ []) (omega arith)),
  omega arith,
)

remember-Behind :
    (w k : ℕ) (recent : List Str) (f g : Str)
    → Behind k f recent
    → suc k < max w 1
    → Behind (suc k) f (remember w recent g).0
unfolding Behind
remember-Behind w k recent f g (front, back, e, h) lt = elim (Bool-cases (any_eq recent g)) [
  | inl old ↦ unfold remember in rw old (front, back, e, omega arith)
  | inr new ↦
      let d = length recent + 1 - max w 1 in
      let size : length recent ≡ length front + suc (length back) =
        ap length e ∙ length-append front (f ∷ back) in
      (
        drop d front,
        back ++ g ∷ [],
        rw (remember_new w recent g new, e, append_assoc)
            (drop-append _ front (f ∷ back ++ g ∷ [])
              (omega (arith, length-append front (f ∷ back)))),
        omega (arith, length-append back (g ∷ [])),
      )
]

-- Offers in a row.
unfoldable pub remember_all : ℕ → List Str → List Str → List Str
remember_all w recent [] = recent
remember_all w recent (g ∷ gs) = remember_all w (remember w recent g).0 gs

remember_all-Behind :
    (w k : ℕ) (recent gs : List Str) (f : Str)
    → Behind k f recent
    → k + length gs < max w 1
    → Behind (k + length gs) f (remember_all w recent gs)
unfolding remember_all
remember_all-Behind w k recent [] f b h = Behind-le k (k + 0) f recent (omega arith) b
remember_all-Behind w k recent (g ∷ gs) f b h =
    Behind-le (suc k + length gs) (k + suc (length gs)) f _ (omega arith) (
      remember_all-Behind w (suc k) (remember w recent g).0 gs f
        (remember-Behind w k recent f g b (omega arith)) (omega arith))

-- A fingerprint that was accepted is refused while fewer than `max w 1` others were offered.
pub remember_again :
    (w : ℕ) (recent gs : List Str) (f : Str)
    → any_eq recent f ≡ false
    → length gs < max w 1
    → (remember w (remember_all w (remember w recent f).0 gs) f).1 ≡ false
unfolding remember
remember_again w recent gs f new h =
    let later =
      remember_all-Behind w 0 (remember w recent f).0 gs f (remember-Behind_new w recent f new)
        (omega arith) in
    rw (Behind-any_eq (0 + length gs) f _ later)

-- Offers of stories in a row, each with the extra text of its fingerprint.
unfoldable pub accept_all : StoryCompiler → List (CompiledStory × Str) → StoryCompiler
accept_all c [] = c
accept_all c ((story, extra) ∷ offers) = accept_all (accept_story c story extra).0 offers

abbrev print_of : CompiledStory × Str → Str
print_of offer = story_fingerprint offer.0 offer.1

accept_all-recent :
    (c : StoryCompiler) (offers : List (CompiledStory × Str))
    → (accept_all c offers).recent_fingerprints
      ≡ remember_all c.config.dedupe_window_events c.recent_fingerprints (map print_of offers)
unfolding accept_all accept_story remember_all
accept_all-recent c [] = refl
accept_all-recent c ((story, extra) ∷ offers) =
    accept_all-recent (accept_story c story extra).0 offers

accept_all-config :
    (c : StoryCompiler) (offers : List (CompiledStory × Str))
    → (accept_all c offers).config ≡ c.config
unfolding accept_all accept_story
accept_all-config c [] = refl
accept_all-config c ((story, extra) ∷ offers) =
    accept_all-config (accept_story c story extra).0 offers

remember-new :
    (w : ℕ) (recent : List Str) (f : Str) → (remember w recent f).1 ≡ true → any_eq recent f ≡ false
unfolding remember
remember-new w recent f h = ground arith

length-map : (offers : List (CompiledStory × Str)) → length (map print_of offers) ≡ length offers
length-map [] = refl
length-map (offer ∷ offers) = ap suc (length-map offers)

-- A story whose fingerprint was accepted is refused when it comes again, while fewer than `max
-- dedupe_window_events 1` other stories were offered since, accepted or not.
pub accept_story_again :
    (c : StoryCompiler) (story again : CompiledStory) (extra extra' : Str)
    (offers : List (CompiledStory × Str))
    → (accept_story c story extra).1 ≡ true
    → story_fingerprint again extra' ≡ story_fingerprint story extra
    → length offers < max c.config.dedupe_window_events 1
    → (accept_story (accept_all (accept_story c story extra).0 offers) again extra').1 ≡ false
unfolding accept_story
accept_story_again c story again extra extra' offers new same few =
    rw
      (
        same,
        accept_all-recent (accept_story c story extra).0 offers,
        accept_all-config (accept_story c story extra).0 offers,
      )
      (remember_again c.config.dedupe_window_events c.recent_fingerprints (map print_of offers)
        (story_fingerprint story extra) (remember-new _ c.recent_fingerprints _ new)
        (omega (arith, length-map offers)))
