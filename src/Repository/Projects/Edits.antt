-- ===== src/Repository/Projects/Edits.antt =====
-- An update of a project leaves the projects of other users alone, where the project is the user's.
use task_flow_alisha_sharma.Common.{
  ℕ, String, ◌≡◌, refl, inl, inr, true, false, Option, none, some, List, [], ◌∷◌, select, modify,
  find, any, All, arith, eq_iff, eq_self, Bool-cases,
}
use task_flow_alisha_sharma.Model.{Project}
use task_flow_alisha_sharma.Database.{Db}
use task_flow_alisha_sharma.Database.Others.{foreign_projects, Distinct, Sparing}
use task_flow_alisha_sharma.Repository.Projects.Keys.{write_project-Distinct}
use task_flow_alisha_sharma.Repository.Projects.{has_id, write_project, update_statement, changes}

-- Every row with this id is one of the user's.
abbrev Owned : String → String → List Project → Type 0
Owned u id ps = All (λ (p : Project). has_id id p ≡ true → p.owner_id ≡ u) ps

any-Owned : (u id : String) (ps : List Project) → any (has_id id) ps ≡ false → Owned u id ps
any-Owned u id [] h = tt
any-Owned u id (p ∷ ps) h = (λ same. ground (arith, h, same), any-Owned u id ps (ground (arith, h)))

find-Owned :
    (u id : String) (ps : List Project) (p : Project)
    → Distinct ps
    → find (has_id id) ps ≡ some p
    → p.owner_id ≡ u
    → Owned u id ps
find-Owned u id [] p d found mine = tt
find-Owned u id (q ∷ ps) p d found mine = elim (Bool-cases (has_id id q)) [
  | inl hit ↦
      let this : some q ≡ some p = rw hit at found in
      let same : q.id ≡ id = (eq_iff q.id id).0 hit in
      (λ h. cc (this, mine), any-Owned u id ps (rw (← same) d.0))
  | inr miss ↦ (λ h. cc (h, miss), find-Owned u id ps p d.1 (rw miss at found) mine)
]

foreign-modify :
    (u id : String) (f : Project → Project) (ps : List Project)
    → ((p : Project) → (f p).owner_id ≡ p.owner_id)
    → Owned u id ps
    → foreign_projects u (modify (has_id id) f ps) ≡ foreign_projects u ps
unfolding select modify
foreign-modify u id f [] keeps mine = refl
foreign-modify u id f (p ∷ ps) keeps mine = elim (Bool-cases (has_id id p)) [
  | inl hit ↦
      let own = mine.0 hit in
      rw (hit, keeps p, own, eq_self u) (foreign-modify u id f ps keeps mine.1)
  | inr miss ↦ rw (miss, foreign-modify u id f ps keeps mine.1) refl
]

changes-owner :
    (name desc : Option String) (p : Project) → (changes name desc p).owner_id ≡ p.owner_id
changes-owner none none p = refl
changes-owner none (some d) p = refl
changes-owner (some n) none p = refl
changes-owner (some n) (some d) p = refl

changes-id : (name desc : Option String) (p : Project) → (changes name desc p).id ≡ p.id
changes-id none none p = refl
changes-id none (some d) p = refl
changes-id (some n) none p = refl
changes-id (some n) (some d) p = refl

pub update_statement-Sparing :
    (u id : String) (name desc : Option String) (p : Project) (at : ℕ) (db : Db)
    → Distinct db.projects
    → find (has_id id) db.projects ≡ some p
    → p.owner_id ≡ u
    → Sparing u db (update_statement id (changes name desc) at db).1
unfolding update_statement write_project
update_statement-Sparing u id name desc p at db d found mine =
    let same =
      foreign-modify u id (changes name desc) db.projects (changes-owner name desc)
        (find-Owned u id db.projects p d found mine) in
    rw (found, update_statement)
      (record {
        projects = ground (arith, same);
        subscriptions = ground arith;
        users = ground arith;
        refresh_tokens = ground arith;
        keyed =
            write_project-Distinct (changes name desc p) id db (changes name desc)
              (changes-id name desc);
      })
