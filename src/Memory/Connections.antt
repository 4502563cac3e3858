-- ===== src/Memory/Connections.antt =====
-- `utils_https_free` gives back a connection.
use ken_code_de_bridge.Base.{[], ok, some, suc, ◌++◌, ◌∙◌, ◌∷◌, ◌≡◌}
use ken_code_de_bridge.Memory.{Heap, Ptr, connection, free, utils_https_free}
use ken_code_de_bridge.Memory.Release.{
  Allocated, Distinct, free-one, has-behind, has-here, pointee, released,
}

connection_round :
    (p curl encoded post headers : Ptr) (h h1 h2 h3 h4 h5 : Heap)
    → h (suc p) ≡ some (connection curl encoded post headers)
    → free curl h ≡ ok h1
    → h1 (suc p) ≡ some (connection curl encoded post headers)
    → free encoded h1 ≡ ok h2
    → h2 (suc p) ≡ some (connection curl encoded post headers)
    → free post h2 ≡ ok h3
    → h3 (suc p) ≡ some (connection curl encoded post headers)
    → free headers h3 ≡ ok h4
    → free (suc p) h4 ≡ ok h5
    → utils_https_free (suc p) h ≡ ok h5
unfolding utils_https_free
connection_round p curl encoded post headers h h1 h2 h3 h4 h5 e f e1 f1 e2 f2 e3 f3 f4 =
    rw (e, f, e1, f1, e2, f2, e3, f3, f4)

-- A connection whose blocks are allocated and distinct is freed as a whole.
pub utils_https_free-released :
    (p curl encoded post headers : Ptr) (h : Heap)
    → h (suc p) ≡ some (connection curl encoded post headers)
    → Distinct
        (pointee curl ++ (pointee encoded ++ (pointee post ++ (pointee headers ++ (suc p ∷ [])))))
    → Allocated h
        (pointee curl ++ (pointee encoded ++ (pointee post ++ (pointee headers ++ (suc p ∷ [])))))
    → utils_https_free (suc p) h
      ≡ ok (
          released (pointee (suc p)) (
            released
              (pointee headers)
              (released (pointee post) (released (pointee encoded) (released (pointee curl) h)))))
utils_https_free-released p curl encoded post headers h e distinct there =
    let last = suc p ∷ [] in
    let in4 = has-here (suc p) [] in
    let in3 = has-behind (suc p) (pointee headers) last in4 in
    let in2 = has-behind (suc p) (pointee post) _ in3 in
    let in1 = has-behind (suc p) (pointee encoded) _ in2 in
    let (f1, d1, t1, s1) = free-one curl _ h distinct there in
    let (f2, d2, t2, s2) = free-one encoded _ _ d1 t1 in
    let (f3, d3, t3, s3) = free-one post _ _ d2 t2 in
    let (f4, d4, t4, s4) = free-one headers last _ d3 t3 in
    let (f5, d5, t5, s5) = free-one (suc p) [] _ d4 t4 in
    let e1 = s1 (suc p) in1 ∙ e in
    let e2 = s2 (suc p) in2 ∙ e1 in
    let e3 = s3 (suc p) in3 ∙ e2 in
    connection_round p curl encoded post headers h _ _ _ _ _ e f1 e1 f2 e2 f3 e3 f4 f5
