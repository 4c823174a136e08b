-- ===== src/Network/Saves.antt =====
-- What the automatic save of frontend/src/views/settings/Network.tsx saves, and an edit that it loses.
use lokinode.Common.{
  Bool, List, Option, Text, [], ap, arith, false, is_empty, leb, none, refl, some, suc, text_eq,
  true, ℕ, ◌+◌, ◌==◌, ◌∙◌, ◌∷◌, ◌≡◌, ◌≤◌,
}
use lokinode.Network.{NetworkForm, Post, save_config}
use lokinode.Network.Dirty.{same}
use lokinode.Network.Autosave.{
  clear_timer, follow_dir, load_form, dir_changed, key_changed, is_changed, Autosave, Input,
  Mounted, Reach, commit, edit, form_loaded, handle, input, mounted, render, running_came,
  same_form, saved, timer_fires, watch_form,
}

-- the timer holds the form of the last render, which may be saved
record Inv (m : Mounted) : Type 0 where
  later : m.rendered.form_no ≤ m.page.form_no
  same_no : m.rendered.form_no ≡ m.page.form_no → m.page.form ≡ m.rendered.form
  holds :
      (due : ℕ) (f : NetworkForm)
      → m.page.timer ≡ some (due, f)
      → (m.rendered.form ≡ some f)
        × (m.rendered.node_running ≡ false)
        × (is_empty m.rendered.node_dir ≡ false)

mounted-Inv :
    (p : Autosave) → p.form ≡ none → p.timer ≡ none → Inv (record { rendered = p; page = p })
mounted-Inv p a b = ground arith

input-Inv :
    (now : ℕ) (i : Input) (m : Mounted) → Inv m → Inv (record m { page = handle now i m.page })
unfolding handle edit form_loaded saved running_came timer_fires dir_changed key_changed
input-Inv now i m h = ground arith

render-Inv :
    (now : ℕ) (m : Mounted)
    → Inv m
    → Inv (record { rendered = m.page; page = commit now m.rendered m.page })
unfolding commit watch_form is_changed clear_timer follow_dir load_form text_eq
render-Inv now m h = ground arith

Reach-Inv : (start : Autosave) (m : Mounted) → Reach start m → Inv m
Reach-Inv start m (mounted a b) = mounted-Inv start a b
Reach-Inv start _ (input now i m r) = input-Inv now i m (Reach-Inv start m r)
Reach-Inv start _ (render now m r) = render-Inv now m (Reach-Inv start m r)

-- Whatever is edited, loaded and answered, whenever the node starts or stops, and whatever directory the
-- store gets, a save that is due is
-- one of the form that the last render showed, with no node running by that render and a directory there.
pub due_save_is_rendered :
    (start : Autosave) (m : Mounted)
    → Reach start m
    → (due : ℕ) (f : NetworkForm) → m.page.timer ≡ some (due, f)
    → (m.rendered.form ≡ some f)
      × (m.rendered.node_running ≡ false)
      × (is_empty m.rendered.node_dir ≡ false)
due_save_is_rendered start m r = (Reach-Inv start m r).holds

text_eq_self : (s : Text) → text_eq s s ≡ true
unfolding text_eq
text_eq_self [] = refl
text_eq_self (c ∷ s) = ground (arith, text_eq_self s)

same_self : (b : Bool) → same b b ≡ true
same_self true = refl
same_self false = refl

same_form_self : (f : NetworkForm) → same_form f f ≡ true
same_form_self f =
    rw
      (
        text_eq_self f.alias,
        same_self f.node_public,
        text_eq_self f.node_ip,
        text_eq_self f.rest_cors,
        text_eq_self f.rpc_listen,
        text_eq_self f.rest_listen,
      )
      refl

other_no : (n : ℕ) → (n == suc n) ≡ false
other_no n = ground arith

module _ (dir key : Text) where
  -- the form with what is saved, the timer and the saves, while no node runs
  unfoldable pub at_rest :
      NetworkForm → ℕ → NetworkForm → Option (ℕ × NetworkForm) → List Post → Autosave
  at_rest f n s timer posts = record {
    form = some f;
    form_no = n;
    saved_form = some s;
    node_dir = dir;
    pub_key = key;
    node_running = false;
    timer = timer;
    timer_dir = dir;
    timer_key = key;
    posts = posts;
  }

  module _ (f s : NetworkForm) (n now : ℕ) (timer : Option (ℕ × NetworkForm)) (posts : List Post)
      (g : NetworkForm → NetworkForm) where
    -- a rendered edit, that differs from what is saved or does not
    edit_is_due :
        is_empty dir ≡ false
        → same_form (g f) s ≡ false
        → commit now (at_rest f n s timer posts) (edit g (at_rest f n s timer posts))
          ≡ at_rest (g f) (suc n) s (some (now + 800, g f)) posts
    unfolding commit watch_form edit is_changed clear_timer follow_dir at_rest
    edit_is_due d e = rw (text_eq_self dir, other_no n, d, e) (ground arith)

    edit_is_saved :
        same_form (g f) s ≡ true
        → commit now (at_rest f n s timer posts) (edit g (at_rest f n s timer posts))
          ≡ at_rest (g f) (suc n) s none posts
    unfolding commit watch_form edit is_changed clear_timer follow_dir at_rest
    edit_is_saved e = rw (text_eq_self dir, other_no n, e) (ground arith)

  due_fires :
      (f s : NetworkForm) (n t u : ℕ) (posts : List Post)
      → t + 800 ≤ u
      → timer_fires u (at_rest f n s (some (t + 800, f)) posts)
        ≡ at_rest f n s none (save_config dir key f ∷ posts)
  unfolding timer_fires at_rest
  due_fires f s n t u posts l = let due : leb (t + 800) u ≡ true = ground arith in rw due refl

abbrev reverted_after :
    ℕ
    → (NetworkForm → NetworkForm)
    → (NetworkForm → NetworkForm)
    → NetworkForm
    → Autosave
    → Autosave
reverted_after v g h f a = saved (g f) true (commit v a (edit h a))

-- the form that is edited, saved while it stands, and taken back before the answer comes
pub reverted : (t u v : ℕ) (g h : NetworkForm → NetworkForm) → NetworkForm → Autosave → Autosave
reverted t u v g h f p = reverted_after v g h f (timer_fires u (commit t p (edit g p)))

-- Where no node runs and the form of a directory is as it is saved, an edit that is saved on its own after
-- 800 ms, and taken back and rendered before the answer comes, stays saved: the form shows the old values,
-- what is saved is the edited form, and no further save is due.
pub reverted_edit_stays_saved :
    (t u v n : ℕ) (g h : NetworkForm → NetworkForm) (f : NetworkForm) (dir key : Text)
    (posts : List Post)
    → is_empty dir ≡ false
    → same_form (g f) f ≡ false
    → h (g f) ≡ f
    → t + 800 ≤ u
    → reverted t u v g h f (at_rest dir key f n f none posts)
      ≡ at_rest dir key f (suc (suc n)) (g f) none (save_config dir key (g f) ∷ posts)
unfolding reverted saved at_rest
reverted_edit_stays_saved t u v n g h f dir key posts d e k l =
    let first = edit_is_due dir key f f n t none posts g d e in
    let fires = due_fires dir key (g f) f (suc n) t u posts l in
    let back =
      edit_is_saved dir key (g f) f (suc n) v none (save_config dir key (g f) ∷ posts) h
        (rw k (same_form_self f)) in
    ap (λ a. reverted_after v g h f (timer_fires u a)) first
    ∙ ap (reverted_after v g h f) fires
    ∙ ap (saved (g f) true) back
    ∙ ap
        (λ o.
          saved (g f) true
            (at_rest dir key o (suc (suc n)) f none (save_config dir key (g f) ∷ posts)))
        k
