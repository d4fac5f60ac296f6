-- ===== src/Db/Login.antt =====
-- db_proxy_server/business/InterLogin.cc: `CInterLoginStrategy::doLogin`. The numbers
-- are the `int` that `GetInt` gives; the connection's way back to its pool is left to Db/Pool.
use mathlib.Core.Option
use talk_system.Prelude.{
  if◌then◌else◌, ◌>>=◌, Text, codes, text_eq, ◌≡◌, refl, ap, ◌∙◌, Bool, true, false, Option, none,
  some, List, [], ◌∷◌, ◌++◌,
}
use talk_system.Prelude.Int.{ℤ}
use talk_system.Db.ResultSet
use talk_system.Db.ResultSet.{
  ResultSet, Row, new, next, get_string, get_int, value_of, get_string_known, get_int_known,
}
use talk_system.Db.Conn.{Library, execute_query, result_set}

-- The variables that the loop over the rows assigns. The numbers have no value before it.
pub record Found : Type 0 where
  pub id : Option ℤ
  pub gender : Option ℤ
  pub dept_id : Option ℤ
  pub status : Option ℤ
  pub result : Text
  pub salt : Text
  pub nick : Text
  pub real_name : Text
  pub domain : Text
  pub tel : Text
  pub email : Text
  pub avatar : Text
  pub sign_info : Text

unfoldable pub unset : Found
unset = record {
  id = none;
  gender = none;
  dept_id = none;
  status = none;
  result = [];
  salt = [];
  nick = [];
  real_name = [];
  domain = [];
  tel = [];
  email = [];
  avatar = [];
  sign_info = [];
}

-- A `char *` that is assigned to a std::string: NULL is undefined behaviour.
abbrev pub string_at : Text → ResultSet → Option Text
string_at key s = elim (get_string key s) [ none ↦ none | some o ↦ o ]

-- The body of the loop.
unfoldable pub read_row : (Text → ℤ) → ResultSet → Option Found
read_row atoi s = do
  id ← get_int atoi (codes "id") s
  result ← string_at (codes "password") s
  salt ← string_at (codes "salt") s
  nick ← string_at (codes "nick") s
  gender ← get_int atoi (codes "sex") s
  real_name ← string_at (codes "name") s
  domain ← string_at (codes "domain") s
  tel ← string_at (codes "phone") s
  email ← string_at (codes "email") s
  avatar ← string_at (codes "avatar") s
  dept_id ← get_int atoi (codes "departId") s
  status ← get_int atoi (codes "status") s
  sign_info ← string_at (codes "sign_info") s
  some (record {
    id = some id;
    gender = some gender;
    dept_id = some dept_id;
    status = some status;
    result = result;
    salt = salt;
    nick = nick;
    real_name = real_name;
    domain = domain;
    tel = tel;
    email = email;
    avatar = avatar;
    sign_info = sign_info;
  })

-- The loop, over the rows that are left.
unfoldable pub read_rows : (Text → ℤ) → List Row → ResultSet → Found → Option Found
read_rows atoi [] s v = some v
read_rows atoi (r ∷ rs) s v =
    let s' = (next s).0 in
    elim (read_row atoi s') [ none ↦ none | some v' ↦ read_rows atoi rs s' v' ]

unfoldable pub query_text : Text → Text
query_text name = codes "select * from IMUser where name='" ++ (name ++ codes "' and status=0")

-- The password check, with `bRet` and the user that is filled in.
abbrev pub check_password : Text → Found → Bool × Option Found
check_password pass v = if text_eq (pass ++ v.salt) v.result then (true, some v) else (false, none)

abbrev pub log_in : (Text → ℤ) → Text → Option ResultSet → Option (Bool × Option Found)
log_in atoi pass none = some (false, none)
log_in atoi pass (some s) = Option.map (check_password pass) (read_rows atoi s.rows s unset)

-- `doLogin`, with whether the pool gives a connection; the outer `none` is undefined behaviour.
unfoldable pub do_login : (Text → ℤ) → Bool → Library → Text → Text → Option (Bool × Option Found)
do_login atoi connected l name pass =
    if connected then log_in atoi pass (execute_query l (query_text name)) else some (false, none)

execute_query_lem :
    (l : Library) (sql : Text)
    → l.query sql ≡ true
    → execute_query l sql ≡ result_set (l.store_result sql)
unfolding execute_query
execute_query_lem l sql q = rw (q, if◌then◌else◌)

-- The texts of a row of IMUser.
pub record Texts : Type 0 where
  pub id : Text
  pub password : Text
  pub salt : Text
  pub nick : Text
  pub sex : Text
  pub name : Text
  pub domain : Text
  pub phone : Text
  pub email : Text
  pub avatar : Text
  pub depart_id : Text
  pub status : Text
  pub sign_info : Text

-- The row has these texts under the names of the table's columns.
pub record Holds (fields : List Text) (r : Row) (t : Texts) : Type 0 where
  pub id_held : value_of (codes "id") fields r ≡ some t.id
  pub password_held : value_of (codes "password") fields r ≡ some t.password
  pub salt_held : value_of (codes "salt") fields r ≡ some t.salt
  pub nick_held : value_of (codes "nick") fields r ≡ some t.nick
  pub sex_held : value_of (codes "sex") fields r ≡ some t.sex
  pub name_held : value_of (codes "name") fields r ≡ some t.name
  pub domain_held : value_of (codes "domain") fields r ≡ some t.domain
  pub phone_held : value_of (codes "phone") fields r ≡ some t.phone
  pub email_held : value_of (codes "email") fields r ≡ some t.email
  pub avatar_held : value_of (codes "avatar") fields r ≡ some t.avatar
  pub depart_id_held : value_of (codes "departId") fields r ≡ some t.depart_id
  pub status_held : value_of (codes "status") fields r ≡ some t.status
  pub sign_info_held : value_of (codes "sign_info") fields r ≡ some t.sign_info

-- The user of such a row.
abbrev pub user_of : (Text → ℤ) → Texts → Found
user_of atoi t = record {
  id = some (atoi t.id);
  result = t.password;
  salt = t.salt;
  nick = t.nick;
  gender = some (atoi t.sex);
  real_name = t.name;
  domain = t.domain;
  tel = t.phone;
  email = t.email;
  avatar = t.avatar;
  dept_id = some (atoi t.depart_id);
  status = some (atoi t.status);
  sign_info = t.sign_info;
}

string_known :
    (k u : Text) (fields : List Text) (r : Row)
    → value_of k fields r ≡ some u
    → string_at k (next (ResultSet.new fields (r ∷ []))).0 ≡ some u
string_known k u fields r e =
    ap (λ (o : Option (Option Text)). elim o [ none ↦ none | some o ↦ o ])
      (get_string_known k u fields r [] e)

read_row_known :
    (atoi : Text → ℤ) (fields : List Text) (r : Row) (t : Texts)
    → Holds fields r t
    → read_row atoi (next (ResultSet.new fields (r ∷ []))).0 ≡ some (user_of atoi t)
unfolding read_row
read_row_known atoi fields r t h =
    rw
      (
        get_int_known atoi (codes "id") t.id fields r [] h.id_held,
        string_known (codes "password") t.password fields r h.password_held,
        string_known (codes "salt") t.salt fields r h.salt_held,
        string_known (codes "nick") t.nick fields r h.nick_held,
        get_int_known atoi (codes "sex") t.sex fields r [] h.sex_held,
        string_known (codes "name") t.name fields r h.name_held,
        string_known (codes "domain") t.domain fields r h.domain_held,
        string_known (codes "phone") t.phone fields r h.phone_held,
        string_known (codes "email") t.email fields r h.email_held,
        string_known (codes "avatar") t.avatar fields r h.avatar_held,
        get_int_known atoi (codes "departId") t.depart_id fields r [] h.depart_id_held,
        get_int_known atoi (codes "status") t.status fields r [] h.status_held,
        string_known (codes "sign_info") t.sign_info fields r h.sign_info_held,
      )
      refl

-- Where the query gives one row, with a text in every column, the login succeeds exactly when the
-- password followed by the row's salt is the row's password, and then fills in the user from the
-- columns, each member from its own.
pub do_login_one_row :
    (atoi : Text → ℤ) (l : Library) (name pass : Text) (fields : List Text) (r : Row) (t : Texts)
    → l.query (query_text name) ≡ true
    → l.store_result (query_text name) ≡ some (fields, r ∷ [])
    → Holds fields r t
    → do_login atoi true l name pass
      ≡ some (
          if text_eq (pass ++ t.salt) t.password
          then (true, some (user_of atoi t))
          else (false, none))
unfolding do_login read_rows ResultSet.new
do_login_one_row atoi l name pass fields r t q e h =
    ap (log_in atoi pass) (execute_query_lem l (query_text name) q ∙ ap result_set e)
    ∙ ap (λ o. Option.map (check_password pass) (elim o [ none ↦ none | some v' ↦ some v' ]))
        (read_row_known atoi fields r t h)

-- Where the query gives no row, the empty password logs in, and the user's id was never set.
pub do_login_unknown :
    (atoi : Text → ℤ) (l : Library) (name : Text) (fields : List Text)
    → l.query (query_text name) ≡ true
    → l.store_result (query_text name) ≡ some (fields, [])
    → (v : Found) × (do_login atoi true l name [] ≡ some (true, some v)) × (v.id ≡ none)
unfolding do_login read_rows ResultSet.new unset text_eq
do_login_unknown atoi l name fields q e =
    (unset, ap (log_in atoi []) (execute_query_lem l (query_text name) q ∙ ap result_set e), refl)
