-- ===== src/Auth/Grants.antt =====
-- The access token that a login gives, under the checks that it meets.
