-- ===== src/Network/Autosave.antt =====
-- The automatic save of the form while no node runs, in frontend/src/views/settings/Network.tsx. Times
-- are in milliseconds. `form_no` counts the form objects, since the effect compares by identity. A
-- timer keeps the directory and the key of the render that set it. `posts` lists the saved configurations,
-- last first.
use lokinode.Common.{
  Bool, List, Option, Text, false, if◌then◌else◌, is_empty, leb, none, not, some, suc, text_eq,
  true, ℕ, ◌&&◌, ◌+◌, ◌==◌, ◌||◌, ◌∷◌, ◌≡◌,
}
use lokinode.Network.{NetworkForm, Post, save_config}
use lokinode.Network.Dirty.{same}

pub record Autosave : Type 0 where
  pub form : Option NetworkForm
  pub form_no : ℕ
  pub saved_form : Option NetworkForm
  pub node_dir : Text
  pub pub_key : Text
  pub node_running : Bool
  pub timer : Option (ℕ × NetworkForm)
  pub timer_dir : Text
  pub timer_key : Text
  pub posts : List Post

-- `JSON.stringify(form) === JSON.stringify(savedFormRef.current)`
abbrev pub same_form : NetworkForm → NetworkForm → Bool
same_form f g =
    text_eq f.alias g.alias
    && same f.node_public g.node_public
    && text_eq f.node_ip g.node_ip
    && text_eq f.rest_cors g.rest_cors
    && text_eq f.rpc_listen g.rpc_listen
    && text_eq f.rest_listen g.rest_listen

abbrev pub is_saved : NetworkForm → Option NetworkForm → Bool
is_saved f none = false
is_saved f (some g) = same_form f g

-- the effect, after its clean-up
unfoldable pub watch_form : ℕ → Autosave → Autosave → Autosave
unfolding text_eq
watch_form now r p = elim r.form [
  | none ↦ p
  | some f ↦
      if is_empty r.node_dir || r.node_running || is_saved f p.saved_form
      then p
      else record p { timer = some (now + 800, f); timer_dir = r.node_dir; timer_key = r.pub_key }
]

unfoldable pub is_changed : Autosave → Autosave → Bool
unfolding text_eq
is_changed a r =
    not (a.form_no == r.form_no)
    || not (same a.node_running r.node_running)
    || not (text_eq a.node_dir r.node_dir)
    || not (text_eq a.pub_key r.pub_key)

-- the effect that loads the form of a directory, up to its request
unfoldable pub load_form : Autosave → Autosave → Autosave
load_form r p = if is_empty r.node_dir then p else record p { form = none; form_no = suc p.form_no }

unfoldable pub clear_timer : Autosave → Autosave → Autosave
unfolding is_changed
clear_timer a r = if is_changed a r then record r { timer = none } else r

unfoldable pub follow_dir : Autosave → Autosave → Autosave → Autosave
unfolding load_form text_eq
follow_dir a r p = if text_eq a.node_dir r.node_dir then p else load_form r p

unfoldable pub commit : ℕ → Autosave → Autosave → Autosave
unfolding watch_form clear_timer follow_dir
commit now a r =
    let p = follow_dir a r (clear_timer a r) in if is_changed a r then watch_form now r p else p

-- `update`
unfoldable pub edit : (NetworkForm → NetworkForm) → Autosave → Autosave
edit g p = elim p.form [
  | none ↦ p
  | some f ↦ record p { form = some (g f); form_no = suc p.form_no }
]

-- the configuration of the directory has come
unfoldable pub form_loaded : NetworkForm → Autosave → Autosave
form_loaded f p = record p { form = some f; form_no = suc p.form_no; saved_form = some f }

unfoldable pub timer_fires : ℕ → Autosave → Autosave
timer_fires now p = elim p.timer [
  | none ↦ p
  | some due ↦
      if leb due.0 now
      then record p { timer = none; posts = save_config p.timer_dir p.timer_key due.1 ∷ p.posts }
      else p
]

-- the answer to a save of `f`: whether it succeeded
unfoldable pub saved : NetworkForm → Bool → Autosave → Autosave
saved f true p = record p { saved_form = some f }
saved f false p = p

unfoldable pub running_came : Bool → Autosave → Autosave
running_came b p = record p { node_running = b }

-- the store has another directory or key
unfoldable pub dir_changed : Text → Autosave → Autosave
dir_changed dir p = record p { node_dir = dir }

unfoldable pub key_changed : Text → Autosave → Autosave
key_changed key p = record p { pub_key = key }

pub data Input : Type 0 where
  other_dir other_key : Text → Input
  edited : (NetworkForm → NetworkForm) → Input
  loaded : NetworkForm → Input
  answered : NetworkForm → Bool → Input
  running : Bool → Input
  timer_due : Input

unfoldable pub handle : ℕ → Input → Autosave → Autosave
unfolding edit form_loaded saved running_came timer_fires dir_changed key_changed
handle now (other_dir dir) p = dir_changed dir p
handle now (other_key key) p = key_changed key p
handle now (edited g) p = edit g p
handle now (loaded f) p = form_loaded f p
handle now (answered f b) p = saved f b p
handle now (running b) p = running_came b p
handle now timer_due p = timer_fires now p

-- the form, and its last render
pub record Mounted : Type 0 where
  pub rendered : Autosave
  pub page : Autosave

-- the inputs and the renders since the first render, which came before there was a form
pub data Reach (start : Autosave) : Mounted → Type 0 where
  mounted :
      start.form ≡ none
      → start.timer ≡ none
      → Reach start (record { rendered = start; page = start })
  input :
      (now : ℕ) (i : Input) (m : Mounted)
      → Reach start m
      → Reach start (record m { page = handle now i m.page })
  render :
      (now : ℕ) (m : Mounted)
      → Reach start m
      → Reach start (record { rendered = m.page; page = commit now m.rendered m.page })
